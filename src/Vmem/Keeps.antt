-- ===== src/Vmem/Keeps.antt =====
-- What kernel/vmem.c's `get_physical_page` and `map_page` leave alone: the other addresses that the
-- page table translates, also where the walk fails halfway.
use skinny_arm.Base.{
  ℕ, zero, suc, ◌+◌, ◌%◌, ◌≤◌, ltb, ◌≡◌, ◌≢◌, ◌⊎◌, inl, inr, refl, sym, ap, ◌∙◌, subst, Option,
  none, some, List, [], ◌∷◌, All, arith, ◌==◌, true, false, Bool-cases, ==→ne, ==→eq, ◌&&◌, not,
}
use skinny_arm.Memory.{Mem, load64, load64-store64_ne}
use skinny_arm.Kalloc.{Kernel, kalloc, kfree}
use skinny_arm.Kalloc.FreeList.{
  Apart, IsFree, IsTaken, SameOutside, kalloc-cons, kalloc-nil, kfree-cons,
}
use skinny_arm.Pte.{get_page_set, get_physical_addr}
use skinny_arm.Vmem.{
  slot, entry_of, mapped_entry, allocated_entry, descend, write_entry, map_leaf, install, allocate,
  round, walk, get_physical_page, map_page,
}
use skinny_arm.Vmem.Leads.{allocated-LeadsTo}
use skinny_arm.Vmem.Translate.{translate, lookup, IsPresent, OnPath, IsTree, entry_of_ext}
use skinny_arm.Vmem.Walk.{
  follow-written, linked-zero, linked-IsFree, linked-IsTree, OnPath-of_zero, translate-present,
}
use skinny_arm.Vmem.Mapping.{
  IsFrame, round-present, round-map, round-allocate, walk-descend, walk-return,
}

abbrev pub IsAligned : ℕ → Type 0
IsAligned v = v % 4096 ≡ 0

-- A table on a page's boundary, apart from the frames `fs`.
abbrev pub IsTable : List ℕ → ℕ → Type 0
IsTable fs v = IsAligned v × All (Apart v) fs

-- Every entry that is set in `m` is the same in `m'`.
abbrev Keeps : List ℕ → Mem → Mem → Type 0
Keeps fs m m' =
    (v va i : ℕ) → IsTable fs v → IsPresent m v va i → entry_of m' v va i ≡ entry_of m v va i

Keeps-outside : (f : ℕ) (fs : List ℕ) (m m' : Mem) → SameOutside f m m' → Keeps (f ∷ fs) m m'
Keeps-outside f fs m m' same v va i is present =
    entry_of_ext m' m v va i λ x h. same x (ground (arith, is.1.0))

Keeps-refl : (fs : List ℕ) (m : Mem) → Keeps fs m m
Keeps-refl fs m v va i is present = refl

Keeps-trans :
    (f : ℕ) (fs : List ℕ) (m m1 m2 : Mem)
    → Keeps (f ∷ fs) m m1
    → Keeps fs m1 m2
    → Keeps (f ∷ fs) m m2
Keeps-trans f fs m m1 m2 keep keep' v va i is present =
    let same = keep v va i is present in
    keep' v va i (is.0, is.1.1) (subst (λ e. get_page_set e ≢ 0) (sym same) present) ∙ same

pub apart_of_eighths : (a b : ℕ) → a % 8 ≡ 0 → b % 8 ≡ 0 → (a ≡ b) ⊎ ((a + 8 ≤ b) ⊎ (b + 8 ≤ a))
apart_of_eighths a b ea eb = elim (Bool-cases (a == b)) [
  | inl same ↦ inl (==→eq a b same)
  | inr other ↦ elim (Bool-cases (ltb a b)) [
    | inl less ↦ inr (inl (ground (arith, less, other)))
    | inr more ↦ inr (inr (ground (arith, more, other)))
  ]
]

pub slot-eighth : (v va i : ℕ) → IsAligned v → slot v va i % 8 ≡ 0
unfolding slot
slot-eighth v va i aligned = omega arith

-- An entry is written where none was set: another entry lies elsewhere.
Keeps-write :
    (pt va i e : ℕ) (k : Kernel) (fs : List ℕ)
    → IsAligned pt
    → get_page_set (entry_of k.mem pt va i) ≡ 0
    → Keeps fs k.mem (write_entry pt va i e k).mem
Keeps-write pt va i e k fs aligned absent v va' i' is present =
    elim (apart_of_eighths (slot pt va i) (slot v va' i') (slot-eighth pt va i aligned)
      (slot-eighth v va' i' is.0)) [
        | inl same ↦ absurd (present (subst (λ a. get_page_set (load64 k.mem a) ≡ 0) same absent))
        | inr apart ↦ load64-store64_ne k.mem (slot pt va i) (slot v va' i') e apart
      ]

-- Every walk of `n` levels from level `i` keeps what is set.
abbrev WalkKeeps : (n i va pa kind : ℕ) → Type 0
WalkKeeps n i va pa kind =
    (pt : ℕ) (k : Kernel) (fs : List ℕ)
    → IsFree k fs
    → All IsFrame fs
    → All IsAligned fs
    → IsTree n i k.mem pt va fs
    → OnPath IsAligned n i k.mem pt va
    → Keeps fs k.mem (walk n i pt va pa kind k).1.mem

module _ (n i va pa kind : ℕ) (below : WalkKeeps n (i + 1) va pa kind) (pt : ℕ) (k : Kernel) where
  Keeps-run :
      (fs : List ℕ) (r : ℕ × Kernel)
      → walk (suc n) i pt va pa kind k ≡ r
      → Keeps fs k.mem r.1.mem
      → Keeps fs k.mem (walk (suc n) i pt va pa kind k).1.mem
  Keeps-run fs r run keep = subst (λ (r : ℕ × Kernel). Keeps fs k.mem r.1.mem) (sym run) keep

  module _ (absent : (get_page_set (entry_of k.mem pt va i) == 0) ≡ true) where
    Keeps-leaf :
        (fs : List ℕ)
        → (i == 3 && not (pa == 0)) ≡ true
        → IsAligned pt
        → (e : Option ℕ) → mapped_entry kind pa ≡ e
        → Keeps fs k.mem (walk (suc n) i pt va pa kind k).1.mem
    unfolding map_leaf
    Keeps-leaf fs last aligned none is =
        Keeps-run fs (0, k)
          (walk-return n i pt va pa kind k (round-map pt va pa kind i k absent last ∙ rw is))
          (Keeps-refl fs k.mem)
    Keeps-leaf fs last aligned (some e) is =
        Keeps-run fs (pa, write_entry pt va i e k)
          (walk-return n i pt va pa kind k (round-map pt va pa kind i k absent last ∙ rw is))
          (Keeps-write pt va i e k fs aligned (==→eq _ 0 absent))

    module _ (last : (i == 3 && not (pa == 0)) ≡ false) where
      Keeps-installed :
          (f : ℕ) (fs : List ℕ) (k1 : Kernel)
          → kalloc k ≡ some (f, k1)
          → IsTaken k f fs k1
          → IsFree k (f ∷ fs)
          → All IsFrame (f ∷ fs)
          → All IsAligned (f ∷ fs)
          → IsTable (f ∷ fs) pt
          → (e : Option ℕ) → allocated_entry i kind f ≡ e
          → Keeps (f ∷ fs) k.mem (walk (suc n) i pt va pa kind k).1.mem
      unfolding allocate install
      Keeps-installed f fs k1 got taken free small aligned table none is =
          let freed = kfree-cons k1 f fs taken.free free.chain.1 free.small.0 free.apart.0 in
          Keeps-run (f ∷ fs) (0, kfree f k1)
            (walk-return n i pt va pa kind k
              (round-allocate pt va pa kind i k absent last ∙ rw (got, is)))
            (Keeps-outside f fs k.mem (kfree f k1).mem (λ x out. freed.2 x out ∙ taken.same x out))
      Keeps-installed f fs k1 got taken free small aligned table (some e) is =
          let leads = allocated-LeadsTo f small.0 i kind e is in
          let step : round pt va pa kind i k ≡ descend f (write_entry pt va i e k1) =
            round-allocate pt va pa kind i k absent last
            ∙ rw (got, is) ((follow-written pt va i k1 e f leads).1) in
          let k2 = write_entry pt va i e k1 in
          let zeros = linked-zero n i pt va f k k k1 f e fs taken leads table.1 free.apart.0 in
          let still : entry_of k1.mem pt va i ≡ entry_of k.mem pt va i =
            entry_of_ext k1.mem k.mem pt va i (λ x h. taken.same x (ground (arith, table.1.0))) in
          let none_set : get_page_set (entry_of k1.mem pt va i) ≡ 0 =
            ap get_page_set still ∙ ==→eq _ 0 absent in
          let first = Keeps-outside f fs k.mem k1.mem taken.same in
          let second = Keeps-write pt va i e k1 fs table.0 none_set in
          let third =
            below f k2 fs (linked-IsFree n i pt va f k k k1 f e fs taken leads table.1 free.apart.0)
              small.1 aligned.1
              (linked-IsTree n i pt va f k k k1 f e fs taken leads table.1 free.apart.0)
              (OnPath-of_zero IsAligned n (i + 1) k2.mem f va zeros aligned.0) in
          Keeps-run (f ∷ fs) (walk n (i + 1) f va pa kind k2)
            (walk-descend n i pt va pa kind k step)
            (Keeps-trans f fs k.mem k2.mem _ (Keeps-trans f fs k.mem k1.mem k2.mem first second)
              third)

      Keeps-allocated :
          (fs : List ℕ)
          → IsFree k fs
          → All IsFrame fs
          → All IsAligned fs
          → IsTable fs pt
          → Keeps fs k.mem (walk (suc n) i pt va pa kind k).1.mem
      unfolding allocate
      Keeps-allocated [] free small aligned table =
          Keeps-run [] (0, k)
            (walk-return n i pt va pa kind k
              (round-allocate pt va pa kind i k absent last ∙ rw (kalloc-nil k free)))
            (Keeps-refl [] k.mem)
      Keeps-allocated (f ∷ fs) free small aligned table =
          let (k1, got, taken) = kalloc-cons k f fs free in
          Keeps-installed f fs k1 got taken free small aligned table (allocated_entry i kind f) refl

walk-Keeps : (n i va pa kind : ℕ) → WalkKeeps n i va pa kind
unfolding walk
walk-Keeps zero i va pa kind pt k fs free small aligned tree path = Keeps-refl fs k.mem
walk-Keeps (suc n) i va pa kind pt k fs free small aligned tree path =
    let below = walk-Keeps n (i + 1) va pa kind in
    elim (Bool-cases (get_page_set (entry_of k.mem pt va i) == 0)) [
      | inr present ↦
          let there = ==→ne _ 0 present in
          let pt' = get_physical_addr (entry_of k.mem pt va i) in
          Keeps-run n i va pa kind below pt k fs (walk n (i + 1) pt' va pa kind k)
            (walk-descend n i pt va pa kind k (round-present pt va pa kind i k there))
            (below pt' k fs free small aligned (tree.1 there).1 (path.1 there))
      | inl absent ↦ elim (Bool-cases (i == 3 && not (pa == 0))) [
        | inl last ↦
            Keeps-leaf n i va pa kind below pt k absent fs last path.0 (mapped_entry kind pa) refl
        | inr other ↦
            Keeps-allocated n i va pa kind below pt k absent other fs free small aligned
              (path.0, tree.0)
      ]
    ]

translate-Keeps :
    (n i : ℕ) (m m' : Mem) (pt va p : ℕ) (fs : List ℕ)
    → Keeps fs m m'
    → OnPath (IsTable fs) n i m pt va
    → translate n i m pt va ≡ some p
    → translate n i m' pt va ≡ some p
unfolding translate
translate-Keeps zero i m m' pt va p fs keep path found = found
translate-Keeps (suc n) i m m' pt va p fs keep path found =
    elim (Bool-cases (get_page_set (entry_of m pt va i) == 0)) [
      | inl absent ↦ absurd (cc (rw absent at found))
      | inr present ↦
          let there = ==→ne _ 0 present in
          let same = keep pt va i path.0 there in
          translate-present n i pt va m' (rw same there)
          ∙ ap (λ e. translate n (i + 1) m' (get_physical_addr e) va) same
          ∙ translate-Keeps n (i + 1) m m' _ va p fs keep (path.1 there)
              (sym (translate-present n i pt va m there) ∙ found)
    ]

-- Whatever `map_page` is asked to map, with whatever kind, and whether it succeeds or fails on the
-- way for want of frames: each address that the table translates keeps its translation. The free frames
-- and the tables on the paths of both addresses start on page boundaries, the tables are apart
-- from the free frames, those on the path of the address to map also from one another, and the
-- free frames are below `2 ^ 36`.
map_page-keeps :
    (pt va pa kind other p : ℕ) (k : Kernel) (fs : List ℕ)
    → IsFree k fs
    → All IsFrame fs
    → All IsAligned fs
    → IsTree 4 0 k.mem pt va fs
    → OnPath IsAligned 4 0 k.mem pt va
    → OnPath (IsTable fs) 4 0 k.mem pt other
    → lookup k.mem pt other ≡ some p
    → lookup (map_page pt va pa kind k).1.mem pt other ≡ some p
unfolding lookup map_page get_physical_page
map_page-keeps pt va pa kind other p k fs free small aligned tree path path' found =
    translate-Keeps 4 0 k.mem _ pt other p fs
      (walk-Keeps 4 0 va pa kind pt k fs free small aligned tree path) path' found
