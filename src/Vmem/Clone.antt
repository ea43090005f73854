-- ===== src/Vmem/Clone.antt =====
-- kernel/vmem.c, lines 317 to 385: `clone_pagetable`. Its local arrays `froms` and `tos` lie in memory, since
-- `tos[0] = tos` lets the code write through one of them; what they hold before they are set is what memory
-- holds there. `frame` has no value in the source, and is an argument here: `kalloc(frame)` writes
-- through it, and nothing sets it.
pub mod Empty
use skinny_arm.Base.{
  ℕ, zero, suc, ◌+◌, ◌-◌, ◌*◌, ◌≡◌, refl, sym, subst, Bool, true, false, Option, none, some, ◌==◌,
}
use skinny_arm.Memory.{load64, store64}
use skinny_arm.Str.{strcpy}
use skinny_arm.Kalloc.{page_size, Kernel, kalloc}
use skinny_arm.Pte.{get_page_set, get_physical_addr, pgdpud_entry}
use skinny_arm.Vmem.Region.{free_pagetable}

-- The addresses of `froms` and `tos`, and `frame`.
pub record Locals : Type 0 where
  pub froms : ℕ
  pub tos : ℕ
  pub frame : ℕ

-- PENTRY_CNT, which proofs about the loops do not unfold.
unfoldable pub pentry_cnt : ℕ
pentry_cnt = 512

-- `kalloc(page)` of a pointer `page`: `none` for -1.
unfoldable pub kalloc_at : (page : ℕ) → Kernel → Option Kernel
kalloc_at page k = elim (kalloc k) [
  | none ↦ none
  | some (head, k') ↦ some (record k' { mem = store64 k'.mem page head })
]

-- `a[i]` of a local array, and of a table
abbrev pub word : (a i : ℕ) → Kernel → ℕ
word a i k = load64 k.mem (a + 8 * i)

abbrev pub set_word : (a i v : ℕ) → Kernel → Kernel
set_word a i v k = record k { mem = store64 k.mem (a + 8 * i) v }

abbrev copy_page : (src dst : ℕ) → Kernel → Kernel
copy_page src dst k = record k { mem = strcpy src dst page_size k.mem }

module _ (v : Locals) where
  open v use {froms, tos, frame}

  -- A round of the innermost `for`, with a frame: lines 377 to 379.
  unfoldable pub clone_page : (l : ℕ) → Kernel → Kernel
  clone_page l k =
      let k1 = set_word (word tos 3 k) l (pgdpud_entry 0 frame) k in
      let k2 = set_word tos 4 frame k1 in copy_page (word froms 4 k2) (word tos 4 k2) k2

  -- A round of an outer `for`, of level `d`, with a frame, before the `for` inside: lines 338 to 340.
  unfoldable pub clone_table : (d i : ℕ) → Kernel → Kernel
  clone_table d i k =
      let k1 = copy_page (word froms (d + 1) k) (word tos (d + 1) k) k in
      let k2 = set_word (word tos d k1) i (pgdpud_entry 0 frame) k1 in set_word tos (d + 1) frame k2

module _ (v : Locals) (to : ℕ) where
  open v use {froms, tos, frame}

  -- The `for` of level `3 - depth`, with `n` entries left from `i` on: false for -1, `free_pagetable` of `to`
  -- included.
  unfoldable pub clone_entries : (depth n i : ℕ) → Kernel → Bool × Kernel
  clone_entries zero zero l k = (true, k)
  clone_entries zero (suc n) l k =
      let k1 = set_word froms 4 (get_physical_addr (word (word tos 3 k) l k)) k in
      elim (get_page_set (word (word tos 3 k1) l k1) == 0) [
        | true ↦ clone_entries zero n (l + 1) k1
        | false ↦ elim (kalloc_at frame k1) [
          | none ↦ (false, free_pagetable to k1)
          | some k2 ↦ clone_entries zero n (l + 1) (clone_page v l k2)
        ]
      ]
  clone_entries (suc depth) zero i k = (true, k)
  clone_entries (suc depth) (suc n) i k =
      let d = 2 - depth in
      let k1 = set_word froms (d + 1) (get_physical_addr (word (word froms d k) i k)) k in
      elim (get_page_set (word (word froms d k1) i k1) == 0) [
        | true ↦ clone_entries (suc depth) n (i + 1) k1
        | false ↦ elim (kalloc_at frame k1) [
          | none ↦ (false, free_pagetable to k1)
          | some k2 ↦
              let (ended, k3) = clone_entries depth pentry_cnt 0 (clone_table v d i k2) in
              elim ended [ true ↦ clone_entries (suc depth) n (i + 1) k3 | false ↦ (false, k3) ]
        ]
      ]

  -- `clone_pagetable`: false for -1.
  unfoldable pub clone_pagetable : (from : ℕ) → Kernel → Bool × Kernel
  clone_pagetable from k =
      let k1 = set_word tos 0 tos (set_word froms 0 from k) in
      clone_entries 3 pentry_cnt 0 (copy_page (word froms 0 k1) (word tos 0 k1) k1)

-- Two rounds that agree where one of them ends well.
abbrev Agree : (x x' : Bool × Kernel) → Type 0
Agree x x' = x.0 ≡ true → x' ≡ x

-- Two rounds that skip an entry, or end for want of a frame, or go on.
Agree-round :
    (skipped : Bool) (got : Option Kernel) (x x' : Bool × Kernel) (g g' : Kernel → Bool × Kernel)
    (r r' : Kernel)
    → Agree x x'
    → ((k : Kernel) → Agree (g k) (g' k))
    → Agree
        (elim skipped [ true ↦ x | false ↦ elim got [ none ↦ (false, r) | some k ↦ g k ] ])
        (elim skipped [ true ↦ x' | false ↦ elim got [ none ↦ (false, r') | some k ↦ g' k ] ])
Agree-round true got x x' g g' r r' h h' = h
Agree-round false none x x' g g' r r' h h' = λ done. absurd (cc done)
Agree-round false (some k) x x' g g' r r' h h' = h' k

-- Two inner loops, and what follows them.
Agree-inner :
    (x x' : Bool × Kernel) (g g' : Kernel → Bool × Kernel)
    → Agree x x'
    → ((k : Kernel) → Agree (g k) (g' k))
    → Agree
        (elim x.0 [ true ↦ g x.1 | false ↦ (false, x.1) ])
        (elim x'.0 [ true ↦ g' x'.1 | false ↦ (false, x'.1) ])
Agree-inner (true, k) x' g g' h h' = λ done.
    subst (λ y. elim y.0 [ true ↦ g' y.1 | false ↦ (false, y.1) ] ≡ g k) (sym (h refl)) (h' k done)
Agree-inner (false, k) x' g g' h h' = λ done. absurd (cc done)

module _ (v : Locals) (to to' : ℕ) where
  clone_entries-Agree :
      (depth n i : ℕ) (k : Kernel)
      → Agree (clone_entries v to depth n i k) (clone_entries v to' depth n i k)
  unfolding clone_entries
  clone_entries-Agree zero zero i k = λ done. refl
  clone_entries-Agree zero (suc n) i k =
      Agree-round _ _ _ _ _ _ _ _ (clone_entries-Agree zero n (i + 1) _)
        λ k2. clone_entries-Agree zero n (i + 1) (clone_page v i k2)
  clone_entries-Agree (suc depth) zero i k = λ done. refl
  clone_entries-Agree (suc depth) (suc n) i k =
      Agree-round _ _ _ _ _ _ _ _ (clone_entries-Agree (suc depth) n (i + 1) _) λ k2.
        Agree-inner _ _ _ _
          (clone_entries-Agree depth pentry_cnt 0 (clone_table v (2 - depth) i k2))
          (clone_entries-Agree (suc depth) n (i + 1))

-- Where `clone_pagetable` ends with 0, any other target gives the same end and the same memory: the table `to`
-- is not filled from `from`, and the code makes use of `to` on its error paths only.
pub clone_pagetable-ignores :
    (v : Locals) (from to to' : ℕ) (k : Kernel)
    → (clone_pagetable v to from k).0 ≡ true
    → clone_pagetable v to' from k ≡ clone_pagetable v to from k
unfolding clone_pagetable
clone_pagetable-ignores v from to to' k done = clone_entries-Agree v to to' 3 pentry_cnt 0 _ done
