-- ===== src/Overlap.antt =====
-- kernel/main.c calls `kalloc_init` before `init_ramfs`, which reads the archive at RAMFS_START of
-- kernel/memory_map.h: the frames of the allocator and the place of the archive.
use skinny_arm.Base.{
  ℕ, zero, suc, ◌+◌, ◌*◌, ◌/◌, ◌%◌, ◌^◌, ◌≤◌, ◌<◌, ◌≡◌, ◌≢◌, ◌⊎◌, inl, inr, refl, ap, ◌-◌, ◌∙◌,
  false, none, some, arith, ne→==,
}
use skinny_arm.Memory.{Mem, load64}
use skinny_arm.Kalloc.{Kernel, next, kalloc_init}
use skinny_arm.Kalloc.FreeList.{Chain}
use skinny_arm.Kalloc.Init.{frames, count, kalloc_init-IsFree}
use skinny_arm.Vmem.KernelTable.{vkern_start}
use skinny_arm.Rootfs.{check_magic, check_bytes}
use skinny_arm.Rootfs.Ramfs.{Layout, Scan, return, scan_entry, scan_entries, init_ramfs}

-- RAMFS_START
abbrev pub ramfs_start : ℕ
ramfs_start = vkern_start + 0x8000000

-- Where this is in physical memory: the kernel's addresses lie VKERN_START above it.
abbrev pub archive_start : ℕ
archive_start = ramfs_start - vkern_start

-- The first word of a free frame is NULL or the address of the next frame.
next-frames :
    (m : Mem) (n i p a f : ℕ)
    → Chain m p (frames n a)
    → i < n
    → f ≡ a + 4096 * i
    → (next m f ≡ 0) ⊎ (next m f ≡ f + 4096)
next-frames m zero i p a f chain lt e = absurd (omega arith)
next-frames m (suc zero) zero p a f chain lt e =
    let same : f ≡ a = omega arith in inl (ap (next m) same ∙ chain.2)
next-frames m (suc (suc n)) zero p a f chain lt e =
    let same : f ≡ a = omega arith in inr (ap (next m) same ∙ chain.2.0 ∙ omega arith)
next-frames m (suc n) (suc i) p a f chain lt e =
    next-frames m n i (next m a) (a + 4096) f chain.2 (omega arith) (omega arith)

check_magic-aligned : (m : Mem) (p : ℕ) → load64 m p % 256 ≡ 0 → check_magic p m ≡ false
unfolding check_magic check_bytes load64
check_magic-aligned m p aligned = rw (ne→== (m p) 48 (omega arith)) refl

scan_entry-unmarked :
    (fuel : ℕ) (t : Layout) (st : Scan)
    → check_magic st.file_start st.mem ≡ false
    → scan_entry fuel t st ≡ some (return none st.mem)
unfolding scan_entry
scan_entry-unmarked fuel t st unmarked = rw (unmarked, scan_entry) refl

scan_entries-unmarked :
    (rounds fuel : ℕ) (t : Layout) (st : Scan)
    → check_magic st.file_start st.mem ≡ false
    → scan_entries (suc rounds) fuel t st ≡ some (none, st.mem)
unfolding scan_entries
scan_entries-unmarked rounds fuel t st unmarked =
    rw (scan_entry-unmarked fuel t st unmarked, scan_entries) refl

-- Without the magic number `init_ramfs` returns -1 at once.
init_ramfs-unmarked :
    (rounds fuel start : ℕ) (t : Layout) (m : Mem)
    → check_magic start m ≡ false
    → init_ramfs (suc rounds) fuel start t m ≡ some (none, m)
unfolding init_ramfs
init_ramfs-unmarked rounds fuel start t m unmarked = scan_entries-unmarked rounds fuel t _ unmarked

-- From a start that is not NULL, on a page's boundary and with the archive's place a whole number of
-- pages behind it, and an end at or above that place that is more than a frame below `2 ^ 64`: `kalloc_init`
-- ends, and in the memory that it leaves `init_ramfs` returns -1, whatever archive was loaded there,
-- since the frame at its place is free and its first word is a link.
pub init_ramfs-kalloc_init :
    (rounds fuel start end : ℕ) (k : Kernel) (t : Layout)
    → start ≢ 0
    → start % 4096 ≡ 0
    → start ≤ archive_start
    → archive_start ≤ end
    → start + 4096 < end
    → end + 4096 < 2 ^ 64
    → (k' : Kernel) × (kalloc_init start end k ≡ some k')
      × (init_ramfs (suc rounds) fuel archive_start t k'.mem ≡ some (none, k'.mem))
init_ramfs-kalloc_init rounds fuel start end k t ne aligned below above room fits =
    let (k', run, free) = kalloc_init-IsFree start end k ne room fits in
    let link =
      next-frames k'.mem (suc (count start end k)) ((archive_start - start) / 4096)
        k'.page_frame_linked_list start archive_start free.chain (omega arith) (omega arith) in
    (
      k',
      run,
      init_ramfs-unmarked rounds fuel archive_start t k'.mem
          (check_magic-aligned k'.mem archive_start (omega (arith, link))),
    )
