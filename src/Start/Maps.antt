-- ===== src/Start/Maps.antt =====
-- kernel/main.c: the memory and the devices that the entries of the table behind `enable_vmem` lead to.
use skinny_arm.Base.{
  ℕ, ◌+◌, ◌*◌, ◌/◌, ◌%◌, ◌^◌, ◌≤◌, ◌<◌, ◌≡◌, ◌≢◌, refl, ◌∙◌, none, some, List, [], ◌∷◌, All, arith,
  true, false, ne→==,
}
use skinny_arm.Memory.{Mem}
use skinny_arm.Vmem.{get_physical_page}
use skinny_arm.Vmem.Lookup.{map_page-mapped}
use skinny_arm.Kalloc.{Kernel, kalloc_init}
use skinny_arm.Vmem.KernelTable.{vkern_start, mmio_base, make_kpagetable}
use skinny_arm.Vmem.Translate.{lookup}
use skinny_arm.Vmem.Space.Map.{IsPaged}
use skinny_arm.Vmem.Space.Kernel.{mapped, IsKernelMap, make_kpagetable-maps}
use skinny_arm.Start.{image_start, kalloc_end, enabled, enable, make_tables, main}
use skinny_arm.Start.Frames.{kalloc_init-frames}
use skinny_arm.Start.Registers.{registers, core_timer_irq_ctrl, core_irq_src}

-- The address behind an image of `r` pages.
abbrev pub image_end : (r : ℕ) → ℕ
image_end r = image_start + 4096 * r

main-run :
    (end root : ℕ) (k k1 k2 : Kernel)
    → root ≢ 0
    → kalloc_init end kalloc_end k ≡ some k1
    → make_kpagetable image_start end k1 ≡ some (root, k2)
    → main 0 end k ≡ some (enabled root k2)
unfolding main make_tables enable
main-run end root k k1 k2 ne run run' = rw (run, run', ne→== root 0 ne) refl

-- From any memory and an image of at most 40000 pages, `main` on CPU 0 comes to `enable_vmem` of a table: the
-- first frame behind the image. Its entries, read the way `get_physical_page` reads them (bit 10 and the
-- address field, whatever bits 0 and 1 say), lead from an address to the page of the number x that its low 48
-- bits are, if x lies in the image or in the devices, and else to an entry that is not set. So
-- `get_physical_page` of an address with such an x returns that page, whatever page and kind are asked for, and
-- changes nothing. The tables are a tree, apart from the free frames that are left. What the MMU makes of
-- these entries is not part of the statement.
pub main-maps :
    (r : ℕ) (k : Kernel)
    → r ≤ 40000
    → (k' : Kernel) × (main 0 (image_end r) k ≡ some (enabled (image_end r) k'))
      × IsKernelMap k'.mem (image_end r) image_start r
      × ((va pa kind : ℕ)
          → mapped image_start r (va % 2 ^ 48) ≡ true
          → get_physical_page (image_end r) va pa kind k' ≡ (va % 2 ^ 48 / 4096 * 4096, k'))
      × ((rest : List ℕ) × IsPaged k' (image_end r) rest)
main-maps r k small =
    let end = image_end r in
    let (k1, fs, run, free, frames, aligned, size) =
      kalloc_init-frames end kalloc_end k (omega arith) (omega arith) (omega arith) (omega arith) in
    let (k2, run', maps, (rest, paged, room)) =
      make_kpagetable-maps image_start r refl (omega arith) (omega arith) end k1 fs free frames
        aligned (omega (arith, size)) in
    (
      k2,
      main-run end end k k1 k2 (omega arith) run run',
      maps,
      λ va pa kind in_map. (map_page-mapped end va pa kind _ k2 (maps va ∙ rw in_map refl)).0,
      (rest, paged),
    )

module _ (m : Mem) (root r : ℕ) (small : r ≤ 40000) (maps : IsKernelMap m root image_start r) where
  device-reached :
      (o : ℕ)
      → o < 0x1000000
      → lookup m root (mmio_base + o) ≡ some ((kalloc_end + o) / 4096 * 4096)
  device-reached o lt =
      let e : (mmio_base + o) % 2 ^ 48 ≡ kalloc_end + o = omega arith in
      let in_devices : mapped image_start r (kalloc_end + o) ≡ true = ground arith in
      maps (mmio_base + o) ∙ rw (e, in_devices) refl

  devices-reached :
      (os : List ℕ)
      → All (λ o. o < 0x1000000) os
      → All (λ o. lookup m root (mmio_base + o) ≡ some ((kalloc_end + o) / 4096 * 4096)) os
  devices-reached [] all = tt
  devices-reached (o ∷ os) all = (device-reached o all.0, devices-reached os all.1)

  outside-none :
      (va : ℕ)
      → image_end r ≤ va % 2 ^ 48
      → (kalloc_end ≤ va % 2 ^ 48 → 0x40000000 ≤ va % 2 ^ 48)
      → lookup m root va ≡ none
  outside-none va behind off =
      let outside : mapped image_start r (va % 2 ^ 48) ≡ false = ground (arith, behind, off) in
      maps va ∙ rw outside refl

-- The registers of the devices at MMIO_BASE have entries, in the same reading of the table.
main-devices :
    (r : ℕ) (k : Kernel)
    → r ≤ 40000
    → (k' : Kernel) × (main 0 (image_end r) k ≡ some (enabled (image_end r) k'))
      × All
          (λ o. lookup k'.mem (image_end r) (mmio_base + o) ≡ some ((kalloc_end + o) / 4096 * 4096))
          registers
main-devices r k small =
    let (k', run, maps, read, tree) = main-maps r k small in
    (k', run, devices-reached k'.mem (image_end r) r small maps registers (omega arith))

-- From any memory and an image of at most 40000 pages: the table that `main` enables on CPU 0 leads nowhere from
-- the registers of the timer's interrupts of the four CPUs. On the path of each of them there is an entry whose
-- bit 10 is not set: of the register that `enable_timer_interrupt` writes and of the one that `handle_irq` reads.
pub main-registers :
    (r : ℕ) (k : Kernel)
    → r ≤ 40000
    → (k' : Kernel) × (main 0 (image_end r) k ≡ some (enabled (image_end r) k'))
      × ((core : ℕ)
          → core < 4
          → (lookup k'.mem (image_end r) (core_timer_irq_ctrl core) ≡ none)
            × (lookup k'.mem (image_end r) (core_irq_src core) ≡ none))
main-registers r k small =
    let (k', run, maps, read, tree) = main-maps r k small in
    let off = outside-none k'.mem (image_end r) r small maps in
    (
      k',
      run,
      λ core lt. (
        off (core_timer_irq_ctrl core) (omega arith) (λ _. omega arith),
        off (core_irq_src core) (omega arith) (λ _. omega arith),
      ),
    )

-- From any memory and an image of at most 40000 pages: below the table that `main` enables on CPU 0, no address of
-- the memory between the image and the devices translates, with or without VKERN_START. So neither this table
-- nor the other frames below the devices that `kalloc` hands out can be reached, nor the archive at
-- RAMFS_START behind the image.
pub main-unreachable :
    (r : ℕ) (k : Kernel)
    → r ≤ 40000
    → (k' : Kernel) × (main 0 (image_end r) k ≡ some (enabled (image_end r) k'))
      × ((x : ℕ)
          → image_end r ≤ x
          → x < kalloc_end
          → (lookup k'.mem (image_end r) x ≡ none)
            × (lookup k'.mem (image_end r) (vkern_start + x) ≡ none))
main-unreachable r k small =
    let (k', run, maps, read, tree) = main-maps r k small in
    let off = outside-none k'.mem (image_end r) r small maps in
    (
      k',
      run,
      λ x lo hi. (
        off x (omega arith) (λ h. omega (arith, h)),
        off (vkern_start + x) (omega arith) (λ h. omega (arith, h)),
      ),
    )
