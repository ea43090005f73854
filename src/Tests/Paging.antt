-- ===== src/Tests/Paging.antt =====
-- The page table walk at the small machine with an empty root table.
use skinny_arm.Base.{
  ℕ, ◌+◌, Bool, ◌≡◌, ◌≢◌, refl, sym, subst, [], ◌∷◌, none, some, All, arith, ◌==◌, if◌then◌else◌,
}
use skinny_arm.Memory.{Mem, load64, store64}
use skinny_arm.Pte.{
  lvl_addr, get_bit, set_bit, get_physical_addr, set_physical_addr, pgdpud_entry, pmd_entry,
  user_entry, get_page_set,
}
use skinny_arm.Kalloc.{Kernel, kalloc}
use skinny_arm.Kalloc.FreeList.{IsFree}
use skinny_arm.Vmem.{slot, entry_of, get_physical_page}
use skinny_arm.Vmem.Translate.{lookup, translate, OnPath, IsTree}
use skinny_arm.Vmem.Walk.{IsTree-of_zero}
use skinny_arm.Vmem.Success.{translate-of_zero}
use skinny_arm.Vmem.Keeps.{IsTable}
use skinny_arm.Vmem.Lookup.{get_physical_page-lookup}
use skinny_arm.Vmem.Region.{free_page, unmap_region, map_region, free_pagetable}
use skinny_arm.Vmem.Region.Returns.{IsMappedRegion, map_region-returns, unmap_region-returns}
use skinny_arm.Vmem.Region.Free.{free_page-unset, free_pagetable-of_zero}
use skinny_arm.Str.{IsBytes}
use skinny_arm.Vmem.UserCopy.{copy_from_user, copy_from_user-within}
use skinny_arm.Tests.Boot.{boot, boot-IsFree, boot_frames, root, root-zero, root-Apart}

root-IsTree : (va : ℕ) → IsTree 4 0 boot.mem root va boot_frames
root-IsTree va = IsTree-of_zero 4 0 boot.mem root va boot_frames root-zero root-Apart

root-lookup : (va : ℕ) → lookup boot.mem root va ≡ none
unfolding lookup
root-lookup va = translate-of_zero 3 0 boot.mem root va root-zero

get_physical_page-lookup_example :
    (p : ℕ) × (k' : Kernel) × (get_physical_page root 0x400000 0 2 boot ≡ (p, k'))
    × (p ≢ 0)
    × (lookup k'.mem root 0x400000 ≡ some p)
get_physical_page-lookup_example =
    get_physical_page-lookup root 0x400000 2 boot boot_frames boot-IsFree (omega arith)
      (root-IsTree 0x400000) (omega arith) (omega arith) (root-lookup 0x400000)

-- A table whose first entry leads back to it at every level.
abbrev loop_mem : Mem
loop_mem = store64 (λ _. 0) 0x1000 (pgdpud_entry 0 0x1000)

abbrev loop : Kernel
loop = record { mem = loop_mem; page_frame_linked_list = 0 }

loop-lookup : lookup loop.mem 0x1000 0 ≡ some 0x1000
unfolding lookup translate slot lvl_addr load64 store64 get_bit get_physical_addr pgdpud_entry
    set_bit set_physical_addr
loop-lookup = refl

loop_mapped : IsMappedRegion 0x1000 0 (0 + 4096) loop
loop_mapped a lo hi aligned =
    let e : 0 ≡ a = omega arith in
    subst (λ x. (p : ℕ) × (lookup loop.mem 0x1000 x ≡ some p) × (p ≢ 0)) e
      (0x1000, loop-lookup, omega arith)

map_region-returns_example :
    (r : Bool × Kernel) × (map_region root 0x400000 0x9000 0x8000 2 boot ≡ some r)
map_region-returns_example = map_region-returns root 0x400000 0x9000 0x8000 2 boot (omega arith)

unmap_region-returns_example : (k' : Kernel) × (unmap_region root 0x400000 0x408000 boot ≡ some k')
unmap_region-returns_example = unmap_region-returns root 0x400000 0x408000 boot (omega arith)

-- A table that maps 0x400000, whose indices are 0, 0, 2 and 0.
abbrev filled_mem : Mem
filled_mem =
    store64
      (store64
        (store64 (store64 (λ _. 0) 0x10000 (pgdpud_entry 0 0x11000)) 0x11000
          (pgdpud_entry 0 0x12000))
        0x12010 (pmd_entry 0 0x13000))
      0x13000 (user_entry 0 0x9000)

abbrev filled : Kernel
filled = record { mem = filled_mem; page_frame_linked_list = 0 }

filled-lookup : lookup filled.mem root 0x400000 ≡ some 0x9000
unfolding lookup translate slot lvl_addr load64 store64 get_bit get_physical_addr pgdpud_entry
    pmd_entry user_entry set_bit set_physical_addr
filled-lookup = refl

filled_unset : get_page_set (entry_of filled.mem root 0x400000 2) ≡ 0
unfolding slot lvl_addr load64 store64 get_bit pgdpud_entry pmd_entry user_entry set_bit
    set_physical_addr
filled_unset = refl

-- The page of 0x400000 is not freed.
free_page-unset_example : free_page root 0x400000 filled ≡ filled
free_page-unset_example = free_page-unset root 0x400000 2 filled (omega arith) filled_unset

free_pagetable-of_zero_example : kalloc (free_pagetable root boot) ≡ none
free_pagetable-of_zero_example =
    free_pagetable-of_zero root boot (omega arith) (omega arith) root-zero

loop-IsBytes : IsBytes loop.mem
unfolding store64
loop-IsBytes x = ground arith

-- Five bytes from 0x10 on, in the page at 0x1000.
copy_from_user-within_example :
    (k' : Kernel) × (copy_from_user 1 0x1000 0x10 0x5000 5 loop ≡ some k')
    × (k'.page_frame_linked_list ≡ 0)
    × ((x : ℕ)
        → k'.mem x
          ≡ (if 5 == 0 then loop.mem x else if x == 0x5000 then loop.mem 0x1010 else loop.mem x))
copy_from_user-within_example =
    copy_from_user-within 1 0x1000 0x10 0x5000 5 0x1000 loop loop-IsBytes loop-lookup refl
      (omega arith) (omega arith)

-- The page 0x9000 at address 0, below the tables 0x10000, 0x11000, 0x12000 and 0x13000.
abbrev mapped_mem : Mem
mapped_mem =
    store64
      (store64
        (store64 (store64 boot.mem 0x10000 (pgdpud_entry 0 0x11000)) 0x11000
          (pgdpud_entry 0 0x12000))
        0x12000 (pmd_entry 0 0x13000))
      0x13000 (user_entry 0 0x9000)

abbrev mapped : Kernel
mapped = record { mem = mapped_mem; page_frame_linked_list = 0x1000 }

mapped-IsFree : IsFree mapped boot_frames
unfolding store64 load64
mapped-IsFree = record {
  chain = (refl, omega arith, (refl, omega arith, (refl, omega arith, (refl, omega arith, refl))));
  apart = omega arith;
  small = omega arith;
}

mapped-lookup : lookup mapped.mem 0x10000 0 ≡ some 0x9000
unfolding lookup translate slot lvl_addr load64 store64 get_bit get_physical_addr pgdpud_entry
    pmd_entry user_entry set_bit set_physical_addr
mapped-lookup = refl

root_entry-zero : get_page_set (entry_of mapped.mem 0x10000 0x8000000000 0) ≡ 0
unfolding slot lvl_addr load64 store64 get_bit pgdpud_entry pmd_entry user_entry set_bit
    set_physical_addr
root_entry-zero = refl

tables-IsTable : All (IsTable boot_frames) (0x10000 ∷ 0x11000 ∷ 0x12000 ∷ 0x13000 ∷ [])
tables-IsTable = omega arith

first_link : get_physical_addr (entry_of mapped.mem 0x10000 0 0) ≡ 0x11000
unfolding slot lvl_addr load64 store64 get_bit get_physical_addr pgdpud_entry pmd_entry user_entry
    set_bit set_physical_addr
first_link = refl

second_link : get_physical_addr (entry_of mapped.mem 0x11000 0 1) ≡ 0x12000
unfolding slot lvl_addr load64 store64 get_bit get_physical_addr pgdpud_entry pmd_entry user_entry
    set_bit set_physical_addr
second_link = refl

third_link : get_physical_addr (entry_of mapped.mem 0x12000 0 2) ≡ 0x13000
unfolding slot lvl_addr load64 store64 get_bit get_physical_addr pgdpud_entry pmd_entry user_entry
    set_bit set_physical_addr
third_link = refl

mapped-OnPath : OnPath (IsTable boot_frames) 4 0 mapped.mem 0x10000 0
mapped-OnPath = (
  tables-IsTable.0,
  λ _.
      subst (λ p. OnPath (IsTable boot_frames) 3 1 mapped.mem p 0) (sym first_link)
        (
          tables-IsTable.1.0,
          λ _.
              subst (λ p. OnPath (IsTable boot_frames) 2 2 mapped.mem p 0) (sym second_link)
                (
                  tables-IsTable.1.1.0,
                  λ _.
                      subst (λ p. OnPath (IsTable boot_frames) 1 3 mapped.mem p 0) (sym third_link)
                        (tables-IsTable.1.1.1.0, λ _. tt),
                ),
        ),
)
