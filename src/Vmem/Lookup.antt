-- ===== src/Vmem/Lookup.antt =====
-- What kernel/vmem.c's `get_physical_page` and `map_page` promise their callers.
use skinny_arm.Base.{
  ℕ, zero, suc, ◌+◌, ◌^◌, ◌≤◌, ◌<◌, ◌≡◌, ◌≢◌, inl, inr, refl, sym, ap, ◌∙◌, none, some, List, All,
  length, arith, ◌==◌, true, Bool-cases, ne→==, ==→ne, not,
}
use skinny_arm.Memory.{within}
use skinny_arm.Kalloc.{Kernel}
use skinny_arm.Kalloc.FreeList.{Apart, IsFree}
use skinny_arm.Pte.{get_page_set, get_physical_addr}
use skinny_arm.Vmem.{entry_of, walk, get_physical_page, map_page}
use skinny_arm.Vmem.Translate.{translate, lookup, IsTree, OnPath}
use skinny_arm.Vmem.Walk.{translate-present}
use skinny_arm.Vmem.Mapping.{IsFrame, round-present, walk-descend, walk-IsMapped}
use skinny_arm.Vmem.Success.{walk-Succeeds}

walk-hit :
    (n i pt va pa kind p : ℕ) (k : Kernel)
    → translate n i k.mem pt va ≡ some p
    → walk n i pt va pa kind k ≡ (p, k)
unfolding walk translate
walk-hit zero i pt va pa kind p k hit = ground arith
walk-hit (suc n) i pt va pa kind p k hit =
    elim (Bool-cases (get_page_set (entry_of k.mem pt va i) == 0)) [
      | inl absent ↦ absurd (cc (rw absent at hit))
      | inr present ↦
          let there = ==→ne _ 0 present in
          walk-descend n i pt va pa kind k (round-present pt va pa kind i k there)
          ∙ walk-hit n (i + 1) (get_physical_addr (entry_of k.mem pt va i)) va pa kind p k
              (sym (translate-present n i pt va k.mem there) ∙ hit)
    ]

-- An address that the table translates: `get_physical_page` returns that page, and `map_page` returns
-- 0 if the page is not NULL, whatever page and kind are asked for, and neither changes anything.
pub map_page-mapped :
    (pt va pa kind p : ℕ) (k : Kernel)
    → lookup k.mem pt va ≡ some p
    → (get_physical_page pt va pa kind k ≡ (p, k)) × (map_page pt va pa kind k ≡ (not (p == 0), k))
unfolding lookup get_physical_page map_page
map_page-mapped pt va pa kind p k hit =
    let run = walk-hit 4 0 pt va pa kind p k hit in (run, rw run)

module _ (pt va kind : ℕ) (k : Kernel) (fs : List ℕ) (free : IsFree k fs) (frames : All IsFrame fs)
    (tree : IsTree 4 0 k.mem pt va fs) where
  -- `map_page` of an address that the table does not translate, to a page that is not NULL and fits
  -- 36 bits, with a kind of at most 2 and at least four free frames, all of them below `2 ^ 36`,
  -- where the tables on the address's path are apart from one another and from the free frames: it
  -- returns 0, the address translates to that page, a page that is apart from the free frames and
  -- from the tables of the path keeps its contents, and the frames that are left form a proper free
  -- list.
  pub map_page-lookup :
      (pa : ℕ)
      → kind ≤ 2
      → pa ≢ 0
      → pa < 2 ^ 36
      → 4 ≤ length fs
      → lookup k.mem pt va ≡ none
      → (k' : Kernel) × (map_page pt va pa kind k ≡ (true, k'))
        × (lookup k'.mem pt va ≡ some pa)
        × ((v : ℕ)
            → All (Apart v) fs
            → OnPath (Apart v) 4 0 k.mem pt va
            → (x : ℕ) → within v 4096 x ≡ true
            → k'.mem x ≡ k.mem x)
        × ((rest : List ℕ) × IsFree k' rest)
  unfolding map_page get_physical_page lookup
  map_page-lookup pa known ne small room unmapped =
      let s = walk-Succeeds 4 0 va pa kind refl known pt k fs free frames tree room unmapped in
      let m =
        walk-IsMapped 4 0 va pa kind refl small pt k fs free frames tree s.page s.after s.run
          s.not_null in
      (
        s.after,
        rw (s.run, ne→== s.page 0 s.not_null),
        m.found ∙ ap some (s.given ne),
        m.kept,
        (m.rest, m.free),
      )

  -- `get_physical_page` with no page given, of an address that the table does not translate, with a
  -- kind of at most 2 and at least four free frames, all of them below `2 ^ 36`, where the tables
  -- on the address's path are apart from one another and from the free frames: it returns a frame
  -- that is not NULL, and the address translates to it.
  pub get_physical_page-lookup :
      kind ≤ 2
      → 4 ≤ length fs
      → lookup k.mem pt va ≡ none
      → (p : ℕ) × (k' : Kernel) × (get_physical_page pt va 0 kind k ≡ (p, k'))
        × (p ≢ 0)
        × (lookup k'.mem pt va ≡ some p)
  unfolding get_physical_page lookup
  get_physical_page-lookup known room unmapped =
      let s = walk-Succeeds 4 0 va 0 kind refl known pt k fs free frames tree room unmapped in
      let m =
        walk-IsMapped 4 0 va 0 kind refl (omega arith) pt k fs free frames tree s.page s.after s.run
          s.not_null in
      (s.page, s.after, s.run, s.not_null, m.found)
