-- ===== src/Vmem/Space/Kernel.antt =====
-- kernel/vmem.c's `make_kpagetable` as a map from virtual to physical pages.
use skinny_arm.Base.{
  ℕ, zero, suc, ◌+◌, ◌-◌, ◌*◌, ◌/◌, ◌%◌, ◌^◌, ◌≤◌, ◌<◌, ◌≡◌, ◌≢◌, inl, inr, refl, sym, ap, subst,
  ◌∙◌, Bool, true, none, some, List, ◌∷◌, All, length, arith, ltb, leb, ◌&&◌, ◌||◌, if◌then◌else◌,
  Bool-cases,
}
use skinny_arm.Memory.{Mem, within}
use skinny_arm.Kalloc.{Kernel}
use skinny_arm.Kalloc.FreeList.{IsFree, kalloc-cons}
use skinny_arm.Vmem.Translate.{lookup, not-IsPresent_of_zero}
use skinny_arm.Vmem.Mapping.{IsFrame}
use skinny_arm.Vmem.Keeps.{IsAligned, IsTable}
use skinny_arm.Vmem.Region.{map_region}
use skinny_arm.Vmem.KernelTable.{
  vkern_start, mmio_base, devices_mapped, image_mapped, make_table, make_kpagetable,
}
use skinny_arm.Vmem.Space.{
  table_at, SamePath, table_at-SamePath, table_at-none, hop-absent, IsSpace, lookup-eq-table_at,
}
use skinny_arm.Vmem.Space.Map.{page, page-SamePath, IsPaged}
use skinny_arm.Vmem.Space.Region.{InRegion, MapsTo, IsMappable, map_region-maps}

module _ (m : Mem) (root : ℕ) (zeros : (x : ℕ) → within root 4096 x ≡ true → m x ≡ 0) where
  table_at-of_zero : (n va : ℕ) → table_at (suc n) m root va ≡ none
  table_at-of_zero n va =
      table_at-none 1 (suc n) m root va
        (hop-absent m 0 va root (not-IsPresent_of_zero m root va 0 zeros)) (omega arith)

  root_only : (n va v : ℕ) → table_at n m root va ≡ some v → (n ≡ 0) × (v ≡ root)
  root_only zero va v at = (refl, cc at)
  root_only (suc n) va v at = absurd (cc (table_at-of_zero n va, at))

  SamePath-root : (n n' va va' : ℕ) → n ≡ 0 → n' ≡ 0 → (n ≡ n') × SamePath n va va'
  SamePath-root n n' va va' e e' = (e ∙ sym e', subst (λ l. SamePath l va va') (sym e) tt)

  -- An empty table alone is a tree.
  pub IsSpace-of_zero : (fs : List ℕ) → IsTable fs root → IsSpace m root fs
  IsSpace-of_zero fs table = record {
    tables = λ n va v lt at. subst (IsTable fs) (sym (root_only n va v at).1) table;
    unique = λ n n' va va' v lt lt' at at'.
        SamePath-root n n' va va' (root_only n va v at).0 (root_only n' va' v at').0;
  }

  pub lookup-of_zero : (va : ℕ) → lookup m root va ≡ none
  lookup-of_zero va = lookup-eq-table_at m root va ∙ table_at-of_zero 3 va

-- In the image of `r` pages from `start` on, or in the devices.
abbrev pub mapped : (start r x : ℕ) → Bool
mapped start r x =
    (leb start x && ltb x (start + 4096 * r)) || (leb 0x3f000000 x && ltb x 0x40000000)

-- An address translates by its low 48 bits, to the physical address that they are, if this lies in the
-- image of `r` pages from `start` on or in the devices, and else not at all.
abbrev pub IsKernelMap : (m : Mem) (root start r : ℕ) → Type 0
IsKernelMap m root start r =
    (va : ℕ)
    → lookup m root va
      ≡ (if mapped start r (va % 2 ^ 48) then some (va % 2 ^ 48 / 4096 * 4096) else none)

-- Only bits 12 to 47 of an address count.
lookup-page : (m : Mem) (root a b : ℕ) → page a ≡ page b → lookup m root a ≡ lookup m root b
lookup-page m root a b same =
    lookup-eq-table_at m root a
    ∙ table_at-SamePath 4 m root a b (page-SamePath a b same)
    ∙ sym (lookup-eq-table_at m root b)

module _ (start r x : ℕ) (aligned : start % 4096 ≡ 0) (fits : start + 4096 * r ≤ 0x3f000000)
    (small : x < 2 ^ 48) where
  image-InRegion :
      InRegion (vkern_start + start) r (vkern_start + x) → (start ≤ x) × (x < start + 4096 * r)
  image-InRegion (j, lt, on) = (omega (arith, lt, on), omega (arith, lt, on))

  devices-InRegion : InRegion mmio_base 4096 (vkern_start + x) → (0x3f000000 ≤ x) × (x < 0x40000000)
  devices-InRegion (j, lt, on) = (omega (arith, lt, on), omega (arith, lt, on))

  module _ (k k1 k2 : Kernel) (root : ℕ) (empty : (va : ℕ) → lookup k.mem root va ≡ none)
      (image : MapsTo k1 root (vkern_start + start) r start)
      (beside : (va : ℕ)
        → ¬ InRegion (vkern_start + start) r va
        → lookup k1.mem root va ≡ lookup k.mem root va)
      (devices : MapsTo k2 root mmio_base 4096 0x3f000000)
      (beside' : (va : ℕ)
        → ¬ InRegion mmio_base 4096 va
        → lookup k2.mem root va ≡ lookup k1.mem root va) where
    image-mapped :
        start ≤ x
        → x < start + 4096 * r
        → lookup k2.mem root (vkern_start + x) ≡ some (x / 4096 * 4096)
    image-mapped lo hi =
        let e : start + 4096 * ((x - start) / 4096) ≡ x / 4096 * 4096 = omega arith in
        beside' (vkern_start + x) (λ on. omega (arith, devices-InRegion on))
        ∙ image ((x - start) / 4096) (vkern_start + x) (omega arith) (omega arith)
        ∙ ap some e

    devices-mapped :
        0x3f000000 ≤ x
        → x < 0x40000000
        → lookup k2.mem root (vkern_start + x) ≡ some (x / 4096 * 4096)
    devices-mapped lo hi =
        let e : 0x3f000000 + 4096 * ((x - 0x3f000000) / 4096) ≡ x / 4096 * 4096 = omega arith in
        devices ((x - 0x3f000000) / 4096) (vkern_start + x) (omega arith) (omega arith) ∙ ap some e

    beside-unmapped :
        ¬ ((start ≤ x) × (x < start + 4096 * r))
        → ¬ ((0x3f000000 ≤ x) × (x < 0x40000000))
        → lookup k2.mem root (vkern_start + x) ≡ none
    beside-unmapped off off' =
        beside' (vkern_start + x) (λ on. off' (devices-InRegion on))
        ∙ beside (vkern_start + x) (λ on. off (image-InRegion on))
        ∙ empty (vkern_start + x)

    kernel_map :
        lookup k2.mem root (vkern_start + x)
        ≡ (if mapped start r x then some (x / 4096 * 4096) else none)
    kernel_map = elim (Bool-cases (leb start x && ltb x (start + 4096 * r))) [
      | inl image_yes ↦
          rw image_yes (image-mapped (ground (arith, image_yes)) (ground (arith, image_yes)))
      | inr image_no ↦ elim (Bool-cases (leb 0x3f000000 x && ltb x 0x40000000)) [
        | inl device_yes ↦
            rw (image_no, device_yes)
              (devices-mapped (ground (arith, device_yes)) (ground (arith, device_yes)))
        | inr device_no ↦
            rw (image_no, device_no)
              (beside-unmapped (λ (lo, hi). ground (arith, image_no, lo, hi))
                (λ (lo, hi). ground (arith, device_no, lo, hi)))
      ]
    ]

module _ (start r : ℕ) (aligned : start % 4096 ≡ 0) (ne : start ≢ 0)
    (fits : start + 4096 * r ≤ 0x3f000000) where
  image-IsMappable :
      (k : Kernel) (root : ℕ)
      → ((va : ℕ) → lookup k.mem root va ≡ none)
      → IsMappable k root (vkern_start + start) r start 0
  image-IsMappable k root empty = record {
    known = omega arith;
    not_null = ne;
    fits = omega arith;
    narrow = omega arith;
    unmapped = λ j lt. empty _;
  }

  devices-IsMappable :
      (k k1 : Kernel) (root : ℕ)
      → ((va : ℕ) → lookup k.mem root va ≡ none)
      → ((va : ℕ)
          → ¬ InRegion (vkern_start + start) r va
          → lookup k1.mem root va ≡ lookup k.mem root va)
      → IsMappable k1 root mmio_base 4096 0x3f000000 1
  devices-IsMappable k k1 root empty beside = record {
    known = omega arith;
    not_null = omega arith;
    fits = omega arith;
    narrow = omega arith;
    unmapped = λ j lt.
        beside (mmio_base + 4096 * j) (λ (i, lt', on). omega (arith, on, lt, lt')) ∙ empty _;
  }

  make_table-run :
      (k k' k1 k2 : Kernel) (root : ℕ)
      → map_region root (vkern_start + start) start (4096 * r) 0 k' ≡ some (true, k1)
      → map_region root mmio_base 0x3f000000 (4096 * 4096) 1 k1 ≡ some (true, k2)
      → make_table start (start + 4096 * r) k (some (root, k')) ≡ some (root, k2)
  unfolding make_table image_mapped devices_mapped
  make_table-run k k' k1 k2 root run run' =
      let e : (vkern_start + start) % 2 ^ 64 ≡ vkern_start + start = omega arith in
      let size : ((vkern_start + (start + 4096 * r)) % 2 ^ 64 + 2 ^ 64 - (vkern_start + start))
            % 2 ^ 64
          ≡ 4096 * r =
        omega arith in
      rw (e, size, run, run') refl

  -- From a free list of page-aligned frames below `2 ^ 36`, four for each page of the image and of the 4096
  -- pages of the devices and one more, and an image of whole pages that does not start at NULL and ends below the
  -- devices: `make_kpagetable` returns the first of the frames. Below this table an address translates by its low 48
  -- bits: to the page of the physical address that they are, if this lies in the image or in the devices, and not
  -- at all if it does not. The tables are a tree, apart from the free frames that are left.
  pub make_kpagetable-maps :
      (root : ℕ) (k : Kernel) (fs : List ℕ)
      → IsFree k (root ∷ fs)
      → All IsFrame (root ∷ fs)
      → All IsAligned (root ∷ fs)
      → 4 * (r + 4096) ≤ length fs
      → (k' : Kernel) × (make_kpagetable start (start + 4096 * r) k ≡ some (root, k'))
        × IsKernelMap k'.mem root start r
        × ((rest : List ℕ) × IsPaged k' root rest × (length fs ≤ length rest + 4 * (r + 4096)))
  unfolding make_kpagetable
  make_kpagetable-maps root k fs free frames aligned' room =
      let (k0, got, taken) = kalloc-cons k root fs free in
      let empty = lookup-of_zero k0.mem root taken.zeroed in
      let paged : IsPaged k0 root fs = record {
        free = taken.free;
        frames = frames.1;
        aligned = aligned'.1;
        space = IsSpace-of_zero k0.mem root taken.zeroed fs (aligned'.0, free.apart.0);
      } in
      let (k1, run, kept, image) =
        map_region-maps root (vkern_start + start) r start 0 k0 fs (omega arith) (omega arith)
          aligned paged (image-IsMappable k0 root empty) (omega arith) in
      let (k2, run', kept', devices) =
        map_region-maps root mmio_base 4096 0x3f000000 1 k1 kept.rest (omega arith) refl refl
          kept.paged (devices-IsMappable k0 k1 root empty kept.others) (omega (arith, kept.room)) in
      (
        k2,
        ap (make_table start (start + 4096 * r) k) got ∙ make_table-run k k0 k1 k2 root run run',
        λ va.
            lookup-page k2.mem root va (vkern_start + va % 2 ^ 48) (omega arith)
            ∙ kernel_map start r (va % 2 ^ 48) aligned fits (omega arith) k0 k1 k2 root empty image
                kept.others devices kept'.others,
        (kept'.rest, kept'.paged, omega (arith, kept.room, kept'.room)),
      )
