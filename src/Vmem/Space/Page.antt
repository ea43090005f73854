-- ===== src/Vmem/Space/Page.antt =====
-- kernel/vmem.c's `get_physical_page` keeps the tables a tree.
use skinny_arm.Base.{
  ℕ, zero, suc, ◌+◌, ◌<◌, ◌≡◌, inl, inr, refl, ◌∙◌, subst, Option, none, some, List, [], ◌∷◌, All,
  arith, ◌==◌, true, false, Bool-cases, ==→ne, ◌&&◌, not,
}
use skinny_arm.Kalloc.{Kernel, kalloc, kfree}
use skinny_arm.Kalloc.FreeList.{IsFree, IsTaken, SameOutside, kalloc-cons, kalloc-nil, kfree-cons}
use skinny_arm.Pte.{get_page_set}
use skinny_arm.Vmem.{
  entry_of, mapped_entry, allocated_entry, descend, write_entry, install, allocate, round, walk,
}
use skinny_arm.Vmem.Leads.{allocated-LeadsTo}
use skinny_arm.Vmem.Walk.{follow-written}
use skinny_arm.Vmem.Mapping.{IsFrame, round-allocate, walk-return}
use skinny_arm.Vmem.Keeps.{IsAligned}
use skinny_arm.Vmem.Space.{table_at, IsSpace}
use skinny_arm.Vmem.Space.Walk.{
  IsWalked, table_at-outside, IsSpace-outside, IsWalked-return, WalkSpace,
}
use skinny_arm.Vmem.Space.Fill.{
  filled-IsFree, table_at-filled, IsSpace-filled, IsWalked-filled, walk-step, present-IsWalked,
  return-IsWalked, leaf-IsWalked,
}

module _ (n i root va pa kind : ℕ) (level : n + i ≡ 3) (fits : IsFrame pa)
    (below : WalkSpace n (suc i) root va pa kind) (pt : ℕ) (k : Kernel)
    (absent : (get_page_set (entry_of k.mem pt va i) == 0) ≡ true)
    (last : (i == 3 && not (pa == 0)) ≡ false) where
  installed-IsWalked :
      (f : ℕ) (fs : List ℕ) (k1 : Kernel)
      → IsFree k (f ∷ fs)
      → All IsFrame (f ∷ fs)
      → All IsAligned (f ∷ fs)
      → IsSpace k.mem root (f ∷ fs)
      → table_at i k.mem root va ≡ some pt
      → kalloc k ≡ some (f, k1)
      → IsTaken k f fs k1
      → (e : Option ℕ) → allocated_entry i kind f ≡ e
      → IsWalked (suc n) root va (f ∷ fs) k.mem (walk (suc n) i pt va pa kind k)
  unfolding allocate install
  installed-IsWalked f fs k1 free frames aligned space at got taken none is =
      let (freed, zeroed, outside) =
        kfree-cons k1 f fs taken.free free.chain.1 free.small.0 free.apart.0 in
      let same : SameOutside f k.mem (kfree f k1).mem = λ x out. outside x out ∙ taken.same x out in
      return-IsWalked n i root va pa kind level fits below pt k (f ∷ fs) free frames aligned space
        at absent (0, kfree f k1)
        (walk-return n i pt va pa kind k
          (round-allocate pt va pa kind i k absent last ∙ rw (got, is)))
        (IsWalked-return (suc n) root va k (kfree f k1) (f ∷ fs) freed frames aligned
          (IsSpace-outside root f fs k.mem (kfree f k1).mem space same)
          (table_at-outside root f fs k.mem (kfree f k1).mem space same))
  installed-IsWalked f fs k1 free frames aligned space at got taken (some e) is =
      let small : i < 4 = omega arith in
      let leads = allocated-LeadsTo f frames.0 i kind e is in
      let k2 = write_entry pt va i e k1 in
      let step : round pt va pa kind i k ≡ descend f k2 =
        round-allocate pt va pa kind i k absent last
        ∙ rw (got, is) ((follow-written pt va i k1 e f leads).1) in
      let further =
        below f k2 fs
          (filled-IsFree root pt va i f e fs k k1 space small at absent taken leads aligned.0
            free.apart.0)
          frames.1 aligned.1
          (IsSpace-filled root pt va i f e fs k k1 space small at absent taken leads aligned.0
            free.apart.0)
          (table_at-filled root pt va i f e fs k k1 space small at absent taken leads aligned.0
            free.apart.0) in
      return-IsWalked n i root va pa kind level fits below pt k (f ∷ fs) free frames aligned space
        at absent (walk n (suc i) f va pa kind k2)
        (walk-step n i root va pa kind level fits below pt k f k2 step)
        (IsWalked-filled root pt va i f e fs k k1 space small at absent taken leads aligned.0
          free.apart.0 n (walk n (suc i) f va pa kind k2) further)

  allocated-IsWalked :
      (fs : List ℕ)
      → IsFree k fs
      → All IsFrame fs
      → All IsAligned fs
      → IsSpace k.mem root fs
      → table_at i k.mem root va ≡ some pt
      → IsWalked (suc n) root va fs k.mem (walk (suc n) i pt va pa kind k)
  unfolding allocate
  allocated-IsWalked [] free frames aligned space at =
      return-IsWalked n i root va pa kind level fits below pt k [] free frames aligned space at
        absent (0, k)
        (walk-return n i pt va pa kind k
          (round-allocate pt va pa kind i k absent last ∙ rw (kalloc-nil k free)))
        (IsWalked-return (suc n) root va k k [] free frames aligned space (λ n va le. refl))
  allocated-IsWalked (f ∷ fs) free frames aligned space at =
      let (k1, got, taken) = kalloc-cons k f fs free in
      installed-IsWalked f fs k1 free frames aligned space at got taken (allocated_entry i kind f)
        refl

pub walk-IsWalked :
    (n i root va pa kind : ℕ) → n + i ≡ 4 → IsFrame pa → WalkSpace n i root va pa kind
unfolding walk
walk-IsWalked zero i root va pa kind level fits pt k fs free frames aligned space at = record {
  rest = fs;
  free = free;
  space = space;
  frames = frames;
  aligned = aligned;
  room = omega arith;
  others = λ va' other. refl;
  found =
      λ ne. let top : i ≡ 4 = omega arith in subst (λ l. table_at l k.mem root va ≡ some pt) top at;
}
walk-IsWalked (suc n) i root va pa kind level fits pt k fs free frames aligned space at =
    let below = walk-IsWalked n (suc i) root va pa kind (omega arith) fits in
    let level' : n + i ≡ 3 = omega arith in
    elim (Bool-cases (get_page_set (entry_of k.mem pt va i) == 0)) [
      | inr present ↦
          present-IsWalked n i root va pa kind level' fits below pt k fs free frames aligned space
            at (==→ne _ 0 present)
      | inl absent ↦ elim (Bool-cases (i == 3 && not (pa == 0))) [
        | inl last ↦
            leaf-IsWalked n i root va pa kind level' fits below pt k fs free frames aligned space at
              absent last (mapped_entry kind pa) refl
        | inr other ↦
            allocated-IsWalked n i root va pa kind level' fits below pt k absent other fs free
              frames aligned space at
      ]
    ]
