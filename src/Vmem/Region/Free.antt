-- ===== src/Vmem/Region/Free.antt =====
-- kernel/vmem.c's `free_page` and `free_pagetable`.
use skinny_arm.Base.{
  ℕ, zero, suc, ◌+◌, ◌*◌, ◌^◌, ◌≤◌, ◌<◌, ◌≡◌, refl, true, Bool-cases, inl, inr, none, arith, ◌==◌,
}
use skinny_arm.Memory.{Mem, load64, within, load64-of_zero}
use skinny_arm.Kalloc.{Kernel, kalloc}
use skinny_arm.Kalloc.FreeList.{kalloc-kfree_at_zeroed}
use skinny_arm.Pte.{get_page_set, get_bit}
use skinny_arm.Vmem.{entry_of}
use skinny_arm.Vmem.Region.{find_levels, free_page, free_entries, free_pagetable}

find_levels-none :
    (n i j root level va : ℕ) (m : Mem)
    → i ≤ j
    → j < i + n
    → get_page_set (entry_of m root va j) ≡ 0
    → find_levels n i root level va m ≡ none
unfolding find_levels
find_levels-none zero i j root level va m lo hi unset = absurd (omega arith)
find_levels-none (suc n) i j root level va m lo hi unset = elim (Bool-cases (i == j)) [
  | inl same ↦ ground (arith, same, unset)
  | inr other ↦ elim (Bool-cases (get_page_set (entry_of m root va i) == 0)) [
    | inl gone ↦ rw gone refl
    | inr there ↦
        rw
          (
            there,
            find_levels-none n (i + 1) j root _ va m (ground (arith, other)) (omega arith) unset,
          )
          refl
  ]
]

-- `free_page` changes nothing where the root table has no entry at one of the address's four indices,
-- even if the address is mapped.
pub free_page-unset :
    (pt va j : ℕ) (k : Kernel)
    → j < 4
    → get_page_set (entry_of k.mem pt va j) ≡ 0
    → free_page pt va k ≡ k
unfolding free_page
free_page-unset pt va j k lt unset =
    rw (find_levels-none 4 0 j pt pt va k.mem (omega arith) (omega arith) unset, free_page) refl

free_entries-of_zero :
    (depth n j table : ℕ) (k : Kernel)
    → ((x : ℕ) → within table 4096 x ≡ true → k.mem x ≡ 0)
    → j + n ≤ 512
    → free_entries depth n j table k ≡ k
unfolding free_entries get_bit
free_entries-of_zero zero n j table k zeroed fits = refl
free_entries-of_zero (suc depth) zero j table k zeroed fits = refl
free_entries-of_zero (suc depth) (suc n) j table k zeroed fits =
    let word : load64 k.mem (table + 8 * j) ≡ 0 =
      load64-of_zero k.mem (table + 8 * j) (λ x lo hi. zeroed x (ground arith)) in
    rw (word, free_entries)
      (free_entries-of_zero (suc depth) n (j + 1) table k zeroed (omega arith))

-- A table of zeros at or above address 4096, with a free list whose head is below `2 ^ 64`: after
-- `free_pagetable` the next `kalloc` returns -1, however many frames were free.
pub free_pagetable-of_zero :
    (pt : ℕ) (k : Kernel)
    → k.page_frame_linked_list < 2 ^ 64
    → 4096 ≤ pt
    → ((x : ℕ) → within pt 4096 x ≡ true → k.mem x ≡ 0)
    → kalloc (free_pagetable pt k) ≡ none
unfolding free_pagetable
free_pagetable-of_zero pt k small above zeroed =
    rw (free_entries-of_zero 4 512 0 pt k zeroed (omega arith)) (
      kalloc-kfree_at_zeroed pt k small above
        (load64-of_zero k.mem pt (λ x lo hi. zeroed x (ground arith))))
