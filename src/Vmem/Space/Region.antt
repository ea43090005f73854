-- ===== src/Vmem/Space/Region.antt =====
-- kernel/vmem.c's `map_region` as an update of a map from virtual to physical pages.
use skinny_arm.Base.{
  ℕ, zero, suc, ◌+◌, ◌*◌, ◌/◌, ◌%◌, ◌^◌, ◌≤◌, ◌<◌, ltb, ◌≡◌, ◌≢◌, refl, sym, ap, subst, ◌∙◌, some,
  none, List, length, arith, true, false, eq→==,
}
use skinny_arm.Kalloc.{Kernel}
use skinny_arm.Vmem.{map_page}
use skinny_arm.Vmem.Translate.{lookup}
use skinny_arm.Vmem.Region.{map_loop, map_region}
use skinny_arm.Vmem.Space.Map.{IsPaged, IsKept, OnPage, map_page-IsKept, map_page-maps}

-- The addresses of the `r` pages from `va` on.
abbrev pub InRegion : (va r : ℕ) → ℕ → Type 0
InRegion va r va' = (j : ℕ) × (j < r) × OnPage (va + 4096 * j) va'

-- The pages from `va` on translate to those from `pa` on.
abbrev pub MapsTo : (k : Kernel) (root va r pa : ℕ) → Type 0
MapsTo k root va r pa =
    (j va' : ℕ) → j < r → OnPage (va + 4096 * j) va' → lookup k.mem root va' ≡ some (pa + 4096 * j)

-- A region of pages that can be mapped to those from `pa` on: none is mapped yet, the pages are not NULL
-- and below `2 ^ 36`, and the region fits the 48 bits of an address.
pub record IsMappable (k : Kernel) (root va r pa kind : ℕ) : Type 0 where
  pub known : kind ≤ 2
  pub not_null : pa ≢ 0
  pub fits : pa + 4096 * r ≤ 2 ^ 36
  pub narrow : 4096 * r ≤ 2 ^ 48
  pub unmapped : (j : ℕ) → j < r → lookup k.mem root (va + 4096 * j) ≡ none

-- The first page of the region.
IsMappable-first :
    (k : Kernel) (root va r pa kind : ℕ)
    → IsMappable k root va (suc r) pa kind
    → lookup k.mem root va ≡ none
IsMappable-first k root va r pa kind is =
    let e : va + 4096 * 0 ≡ va = omega arith in
    subst (λ a. lookup k.mem root a ≡ none) e (is.unmapped 0 (omega arith))

-- The others, behind the mapping of the first.
IsMappable-later :
    (k k1 : Kernel) (root va r pa kind : ℕ)
    → IsMappable k root va (suc r) pa kind
    → ((va' : ℕ) → ¬ OnPage va va' → lookup k1.mem root va' ≡ lookup k.mem root va')
    → IsMappable k1 root (va + 4096) r (pa + 4096) kind
IsMappable-later k k1 root va r pa kind is others = record {
  known = is.known;
  not_null = omega arith;
  fits = omega (arith, is.fits);
  narrow = omega (arith, is.narrow);
  unmapped = λ j lt.
      let e : va + 4096 * suc j ≡ va + 4096 + 4096 * j = omega arith in
      others (va + 4096 + 4096 * j) (λ on. omega (arith, is.narrow, lt, on))
      ∙ subst (λ a. lookup k.mem root a ≡ none) e (is.unmapped (suc j) (omega (arith, lt)));
}

InRegion-later : (va r va' : ℕ) → InRegion (va + 4096) r va' → InRegion va (suc r) va'
InRegion-later va r va' (j, lt, on) = (suc j, omega (arith, lt), omega (arith, on))

InRegion-first : (va r va' : ℕ) → OnPage va va' → InRegion va (suc r) va'
InRegion-first va r va' on = (0, omega arith, omega (arith, on))

-- The first page does not stand among the others.
InRegion-apart :
    (va r va' : ℕ) → 4096 * suc r ≤ 2 ^ 48 → OnPage va va' → ¬ InRegion (va + 4096) r va'
InRegion-apart va r va' narrow on (j, lt, on') = omega (arith, on, on', lt)

MapsTo-cons :
    (k1 k' : Kernel) (root va r pa : ℕ)
    → 4096 * suc r ≤ 2 ^ 48
    → ((va' : ℕ) → OnPage va va' → lookup k1.mem root va' ≡ some pa)
    → ((va' : ℕ) → ¬ InRegion (va + 4096) r va' → lookup k'.mem root va' ≡ lookup k1.mem root va')
    → MapsTo k' root (va + 4096) r (pa + 4096)
    → MapsTo k' root va (suc r) pa
MapsTo-cons k1 k' root va r pa narrow here others maps zero va' lt on =
    let e : pa + 4096 * 0 ≡ pa = omega arith in
    let on' : OnPage va va' = omega (arith, on) in
    others va' (InRegion-apart va r va' narrow on') ∙ here va' on' ∙ ap some (sym e)
MapsTo-cons k1 k' root va r pa narrow here others maps (suc j) va' lt on =
    let e : pa + 4096 + 4096 * j ≡ pa + 4096 * suc j = omega arith in
    maps j va' (omega (arith, lt)) (omega (arith, on)) ∙ ap some e

IsKept-cons :
    (k k1 k' : Kernel) (root va r : ℕ) (fs : List ℕ)
    → (kept : IsKept (OnPage va) 4 k root fs k1)
    → IsKept (InRegion (va + 4096) r) (4 * r) k1 root kept.rest k'
    → IsKept (InRegion va (suc r)) (4 * suc r) k root fs k'
IsKept-cons k k1 k' root va r fs kept kept' = record {
  rest = kept'.rest;
  paged = kept'.paged;
  room = omega (arith, kept.room, kept'.room);
  others = λ va' off.
      kept'.others va' (λ on. off (InRegion-later va r va' on))
      ∙ kept.others va' (λ on. off (InRegion-first va r va' on));
}

module _ (root va_start va_end kind : ℕ) where
  map_loop-step :
      (fuel va pa : ℕ) (k : Kernel)
      → va < va_end
      → va + 4096 < 2 ^ 64
      → pa + 4096 < 2 ^ 64
      → (map_page root va pa kind k).0 ≡ true
      → map_loop (suc fuel) root va_start va_end va pa kind k
        ≡ map_loop fuel root va_start va_end
            (va + 4096)
            (pa + 4096)
            kind
            (map_page root va pa kind k).1
  unfolding map_loop
  map_loop-step fuel va pa k lt fits fits' mapped =
      let more : ltb va va_end ≡ true = ground arith in
      let next : (va + 4096) % 2 ^ 64 ≡ va + 4096 = omega arith in
      let next' : (pa + 4096) % 2 ^ 64 ≡ pa + 4096 = omega arith in
      rw (more, mapped, next, next', map_loop) refl

  map_loop-maps :
      (r fuel va pa : ℕ) (k : Kernel) (fs : List ℕ)
      → r < fuel
      → va_end ≡ va + 4096 * r
      → va_end + 4096 ≤ 2 ^ 64
      → IsPaged k root fs
      → IsMappable k root va r pa kind
      → 4 * r ≤ length fs
      → (k' : Kernel) × (map_loop fuel root va_start va_end va pa kind k ≡ some (true, k'))
        × IsKept (InRegion va r) (4 * r) k root fs k'
        × MapsTo k' root va r pa
  unfolding map_loop
  map_loop-maps r zero va pa k fs enough end fits paged is room = absurd (omega arith)
  map_loop-maps zero (suc fuel) va pa k fs enough end fits paged is room =
      let done : ltb va va_end ≡ false = ground arith in
      (
        k,
        rw (done, map_loop) refl,
        record { rest = fs; paged = paged; room = omega arith; others = λ va' off. refl },
        λ j va' lt on. absurd (omega arith),
      )
  map_loop-maps (suc r) (suc fuel) va pa k fs enough end fits paged is room =
      let small : pa < 2 ^ 36 = omega (arith, is.fits) in
      let kept = map_page-IsKept root va pa kind k fs paged small in
      let (mapped, here) =
        map_page-maps root va pa kind k fs paged small is.known is.not_null (omega arith)
          (IsMappable-first k root va r pa kind is) in
      let k1 = (map_page root va pa kind k).1 in
      let (k', run, kept', maps) =
        map_loop-maps r fuel (va + 4096) (pa + 4096) k1 kept.rest (omega arith) (omega arith) fits
          kept.paged (IsMappable-later k k1 root va r pa kind is kept.others)
          (omega (arith, kept.room)) in
      (
        k',
        map_loop-step fuel va pa k (omega arith) (omega arith) (omega (arith, is.fits)) mapped
            ∙ run,
        IsKept-cons k k1 k' root va r fs kept kept',
        MapsTo-cons k1 k' root va r pa is.narrow here kept'.others maps,
      )

map_region-loop :
    (root va_start r pa kind : ℕ) (k : Kernel)
    → va_start + 4096 * r + 4096 ≤ 2 ^ 64
    → va_start % 4096 ≡ 0
    → pa % 4096 ≡ 0
    → map_region root va_start pa (4096 * r) kind k
      ≡ map_loop
          (suc ((va_start + 4096 * r) / 4096 + 1))
          root
          va_start
          (va_start + 4096 * r)
          va_start
          pa
          kind
          k
unfolding map_region
map_region-loop root va_start r pa kind k fits va_al pa_al =
    let e : (va_start + 4096 * r) % 2 ^ 64 ≡ va_start + 4096 * r = omega arith in
    let al : (va_start + 4096 * r) % 4096 ≡ 0 = omega arith in
    rw
      (
        e,
        eq→== (va_start % 4096) 0 va_al,
        eq→== ((va_start + 4096 * r) % 4096) 0 al,
        eq→== (pa % 4096) 0 pa_al,
      )
      refl

-- With a tree of page-aligned tables apart from the free frames, page-aligned free frames below
-- `2 ^ 36`, four of them for each page, and a region of whole pages that is not mapped yet, ends a page below
-- the end of the address space or lower and is at most `2 ^ 48` long, to be mapped with a kind of at most 2 to
-- whole pages that are not NULL and end at `2 ^ 36` or lower: `map_region` succeeds. Then all addresses of the
-- region translate to the pages asked for, in their order, addresses outside it translate as before, also those
-- that did not translate, and the tables are again a tree apart from the free frames that are left, as many as
-- there were but four for each page or more.
pub map_region-maps :
    (root va_start r pa kind : ℕ) (k : Kernel) (fs : List ℕ)
    → va_start + 4096 * r + 4096 ≤ 2 ^ 64
    → va_start % 4096 ≡ 0
    → pa % 4096 ≡ 0
    → IsPaged k root fs
    → IsMappable k root va_start r pa kind
    → 4 * r ≤ length fs
    → (k' : Kernel) × (map_region root va_start pa (4096 * r) kind k ≡ some (true, k'))
      × IsKept (InRegion va_start r) (4 * r) k root fs k'
      × MapsTo k' root va_start r pa
map_region-maps root va_start r pa kind k fs fits va_al pa_al paged is room =
    let (k', run, kept, maps) =
      map_loop-maps root va_start (va_start + 4096 * r) kind r
        (suc ((va_start + 4096 * r) / 4096 + 1)) va_start pa k fs (omega arith) refl fits paged is
        room in
    (k', map_region-loop root va_start r pa kind k fits va_al pa_al ∙ run, kept, maps)
