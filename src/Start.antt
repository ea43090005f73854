-- ===== src/Start.antt =====
-- kernel/main.c: what `main` does up to `enable_vmem`, and the end of the archive that it works out. The
-- kernel's image lies where kernel/link.ld puts it: `end` is the linker's `_end` and `_kalloc_start`.
pub mod Registers
pub mod Frames
pub mod Maps
pub mod Devices
use skinny_arm.Base.{
  ℕ, zero, suc, ◌+◌, ◌-◌, ◌*◌, ◌/◌, ◌%◌, ◌^◌, Bool, Option, none, some, ◌==◌, if◌then◌else◌,
}
use skinny_arm.Kalloc.{Kernel, kalloc_init}
use skinny_arm.Vmem.KernelTable.{vkern_start, mmio_base, make_kpagetable}
use skinny_arm.Overlap.{ramfs_start}

-- `_start` of kernel/link.ld
abbrev pub image_start : ℕ
image_start = 0x80000

-- kernel/kalloc.c's `kalloc_end`
abbrev pub kalloc_end : ℕ
kalloc_end = mmio_base - vkern_start

-- What `main` comes to: the endless loop of the other CPUs, its `return -1`, or `enable_vmem` of the
-- kernel's table.
pub data Started : Type 0 where
  parked : Kernel → Started
  returned : Kernel → Started
  enabled : (kernel_pagetable : ℕ) → Kernel → Started

-- `if(kernel_pagetable == NULL)`
unfoldable pub enable : Option (ℕ × Kernel) → Option Started
enable none = none
enable (some (kernel_pagetable, k)) =
    if kernel_pagetable == 0 then some (returned k) else some (enabled kernel_pagetable k)

unfoldable pub make_tables : (end : ℕ) → Option Kernel → Option Started
unfolding enable
make_tables end none = none
make_tables end (some k) = enable (make_kpagetable image_start end k)

-- `main` on CPU `cpu_id` up to `enable_vmem`; `none` only if fuel runs out.
unfoldable pub main : (cpu_id end : ℕ) → Kernel → Option Started
unfolding make_tables
main cpu_id end k =
    let tables = make_tables end (kalloc_init end kalloc_end k) in
    if cpu_id == 0 then tables else some (parked k)

-- `rootfs_end` behind `init_ramfs`, from what this returns and sets.
unfoldable pub rootfs_end_of : Option ℕ → ℕ
rootfs_end_of none = ramfs_start
rootfs_end_of (some rootfs_end) = rootfs_end

-- The padding of `rootfs_end`, which goes through a `uint32_t`.
unfoldable pub padded_end : (rootfs_end : ℕ) → ℕ
padded_end rootfs_end = (rootfs_end + 4096 - 1) % 2 ^ 32 / 4096 * 4096
