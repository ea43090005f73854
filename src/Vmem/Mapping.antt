-- ===== src/Vmem/Mapping.antt =====
-- kernel/vmem.c's `get_physical_page` and `map_page` against the translation of addresses.
use skinny_arm.Base.{
  ℕ, zero, suc, ◌+◌, ◌^◌, ◌<◌, ◌≡◌, ◌≢◌, inl, inr, refl, sym, subst, ap, ◌∙◌, Option, none, some,
  List, [], ◌∷◌, All, arith, ◌==◌, true, false, Bool-cases, ne→==, ==→ne, ◌&&◌, not,
}
use skinny_arm.Kalloc.{Kernel, kalloc, kfree}
use skinny_arm.Kalloc.FreeList.{Apart, IsFree, IsTaken, kalloc-cons, kalloc-nil}
use skinny_arm.Pte.{get_page_set, get_physical_addr}
use skinny_arm.Vmem.{
  entry_of, mapped_entry, allocated_entry, return, descend, write_entry, map_leaf, install,
  allocate, round, walk,
}
use skinny_arm.Vmem.Leads.{mapped-LeadsTo, allocated-LeadsTo}
use skinny_arm.Vmem.Translate.{translate, IsPresent, IsTree}
use skinny_arm.Vmem.Walk.{
  IsMapped, follow-written, linked-IsFree, linked-IsTree, IsMapped-present, IsMapped-allocated,
  IsMapped-leaf,
}

-- What a round does, by the tests that it makes.
module _ (pt va pa kind i : ℕ) (k : Kernel) where
  pub round-present :
      IsPresent k.mem pt va i
      → round pt va pa kind i k ≡ descend (get_physical_addr (entry_of k.mem pt va i)) k
  unfolding round
  round-present present = rw (ne→== _ 0 present)

  pub round-map :
      (get_page_set (entry_of k.mem pt va i) == 0) ≡ true
      → (i == 3 && not (pa == 0)) ≡ true
      → round pt va pa kind i k ≡ map_leaf pt va i pa (mapped_entry kind pa) k
  unfolding round
  round-map absent last = rw (absent, last)

  pub round-allocate :
      (get_page_set (entry_of k.mem pt va i) == 0) ≡ true
      → (i == 3 && not (pa == 0)) ≡ false
      → round pt va pa kind i k ≡ allocate pt va i kind (kalloc k) k
  unfolding round
  round-allocate absent last = rw (absent, last)

pub walk-descend :
    (n i pt va pa kind : ℕ) (k : Kernel) {pt' : ℕ} {k' : Kernel}
    → round pt va pa kind i k ≡ descend pt' k'
    → walk (suc n) i pt va pa kind k ≡ walk n (i + 1) pt' va pa kind k'
unfolding walk
walk-descend n i pt va pa kind k e = rw (e, walk)

pub walk-return :
    (n i pt va pa kind : ℕ) (k : Kernel) {p : ℕ} {k' : Kernel}
    → round pt va pa kind i k ≡ return p k'
    → walk (suc n) i pt va pa kind k ≡ (p, k')
unfolding walk
walk-return n i pt va pa kind k e = rw (e, walk)

-- A page address that an entry can hold: `SET_PHYSICAL_ADDR` shifts it up by 12 bits.
abbrev pub IsFrame : ℕ → Type 0
IsFrame p = p < 2 ^ 36

-- Every successful walk of `n` levels from level `i` maps the address.
abbrev Maps : (n i va pa kind : ℕ) → Type 0
Maps n i va pa kind =
    (pt : ℕ) (k : Kernel) (fs : List ℕ)
    → IsFree k fs
    → All IsFrame fs
    → IsTree n i k.mem pt va fs
    → (p : ℕ) (k' : Kernel) → walk n i pt va pa kind k ≡ (p, k')
    → p ≢ 0
    → IsMapped n i k.mem pt va fs p k'

module _ (n i va pa kind : ℕ) (below : Maps n (i + 1) va pa kind) (pt : ℕ) (k : Kernel) (p : ℕ)
    (k' : Kernel) (run : walk (suc n) i pt va pa kind k ≡ (p, k')) (ne : p ≢ 0) where
  -- A round that returns NULL is no success.
  not_null : (k0 : Kernel) → round pt va pa kind i k ≡ return 0 k0 → ⊥
  not_null k0 e = ne (sym (ap (λ r. r.0) (sym (walk-return n i pt va pa kind k e) ∙ run)))

  maps_present :
      (fs : List ℕ)
      → IsFree k fs
      → All IsFrame fs
      → IsTree (suc n) i k.mem pt va fs
      → IsPresent k.mem pt va i
      → IsMapped (suc n) i k.mem pt va fs p k'
  maps_present fs free small tree present = IsMapped-present n i pt va p k' k.mem fs present tree (
      below (get_physical_addr (entry_of k.mem pt va i)) k fs free small (tree.1 present).1 p k'
        (sym (walk-descend n i pt va pa kind k (round-present pt va pa kind i k present)) ∙ run) ne)

  module _ (absent : (get_page_set (entry_of k.mem pt va i) == 0) ≡ true)
      (last : (i == 3 && not (pa == 0)) ≡ false) where
    allocates : round pt va pa kind i k ≡ allocate pt va i kind (kalloc k) k
    allocates = round-allocate pt va pa kind i k absent last

    maps_installed :
        (f : ℕ) (fs : List ℕ) (k1 : Kernel)
        → kalloc k ≡ some (f, k1)
        → IsTaken k f fs k1
        → IsFree k (f ∷ fs)
        → All IsFrame (f ∷ fs)
        → All (Apart pt) (f ∷ fs)
        → (e : Option ℕ) → allocated_entry i kind f ≡ e
        → IsMapped (suc n) i k.mem pt va (f ∷ fs) p k'
    unfolding allocate install
    maps_installed f fs k1 got taken free small apart none is =
        absurd (not_null (kfree f k1) (allocates ∙ rw (got, is)))
    maps_installed f fs k1 got taken free small apart (some e) is =
        let leads = allocated-LeadsTo f small.0 i kind e is in
        let step = allocates ∙ rw (got, is) ((follow-written pt va i k1 e f leads).1) in
        IsMapped-allocated n i pt va p k' k k1 f e fs taken leads apart free.apart.0 (
          below f _ fs (linked-IsFree n i pt va p k' k k1 f e fs taken leads apart free.apart.0)
            small.1 (linked-IsTree n i pt va p k' k k1 f e fs taken leads apart free.apart.0) p k'
            (sym (walk-descend n i pt va pa kind k step) ∙ run) ne)

    maps_allocated :
        (fs : List ℕ)
        → IsFree k fs
        → All IsFrame fs
        → All (Apart pt) fs
        → IsMapped (suc n) i k.mem pt va fs p k'
    unfolding allocate
    maps_allocated [] free small apart = absurd (not_null k (allocates ∙ rw (kalloc-nil k free)))
    maps_allocated (f ∷ fs) free small apart =
        let (k1, got, taken) = kalloc-cons k f fs free in
        maps_installed f fs k1 got taken free small apart (allocated_entry i kind f) refl

  maps_leaf :
      (fs : List ℕ)
      → n + i ≡ 3
      → (get_page_set (entry_of k.mem pt va i) == 0) ≡ true
      → (i == 3 && not (pa == 0)) ≡ true
      → IsFrame pa
      → IsFree k fs
      → All (Apart pt) fs
      → (e : Option ℕ) → mapped_entry kind pa ≡ e
      → IsMapped (suc n) i k.mem pt va fs p k'
  unfolding map_leaf
  maps_leaf fs level absent last small free apart none is =
      absurd (not_null k (round-map pt va pa kind i k absent last ∙ rw is))
  maps_leaf fs level absent last small free apart (some e) is =
      subst (λ l. IsMapped (suc l) i k.mem pt va fs p k') (sym top)
        (subst (λ r. IsMapped 1 i k.mem pt va fs r.0 r.1) stop
          (IsMapped-leaf i pt va pa e k fs free apart (mapped-LeadsTo pa small kind e is)))
    where
      top : n ≡ 0
      top = ground arith

      stop : ◌≡◌ {A = ℕ × Kernel} (pa, write_entry pt va i e k) (p, k')
      stop =
          sym (walk-return n i pt va pa kind k (round-map pt va pa kind i k absent last ∙ rw is))
          ∙ run

pub walk-IsMapped : (n i va pa kind : ℕ) → n + i ≡ 4 → IsFrame pa → Maps n i va pa kind
unfolding walk translate
walk-IsMapped zero i va pa kind level small pt k fs free frames tree p k' run ne =
    let same = ap (λ r. r.1) run in
    record {
      found = ap (λ r. some (r.0)) run;
      kept = λ v out path x h. ap (λ r. r.1.mem x) (sym run);
      rest = fs;
      free = subst (λ r. IsFree r fs) same free;
    }
walk-IsMapped (suc n) i va pa kind level small pt k fs free frames tree p k' run ne =
    let below : Maps n (i + 1) va pa kind =
      walk-IsMapped n (i + 1) va pa kind (omega arith) small in
    elim (Bool-cases (get_page_set (entry_of k.mem pt va i) == 0)) [
      | inr present ↦
          maps_present n i va pa kind below pt k p k' run ne fs free frames tree (==→ne _ 0 present)
      | inl absent ↦ elim (Bool-cases (i == 3 && not (pa == 0))) [
        | inl last ↦
            maps_leaf n i va pa kind below pt k p k' run ne fs (omega arith) absent last small free
              tree.0 (mapped_entry kind pa) refl
        | inr other ↦
            maps_allocated n i va pa kind below pt k p k' run ne absent other fs free frames tree.0
      ]
    ]
