-- ===== src/Vmem/Success.antt =====
-- The walk of kernel/vmem.c's `get_physical_page` over an address that is not mapped yet, with a known
-- kind and enough free frames.
use skinny_arm.Base.{
  ℕ, zero, suc, ◌+◌, ◌≤◌, ◌≡◌, ◌≢◌, inl, inr, refl, sym, ◌∙◌, Option, none, some, List, [], ◌∷◌,
  All, length, arith, ◌==◌, true, false, Bool-cases, ==→ne, ◌&&◌, not,
}
use skinny_arm.Memory.{Mem, within}
use skinny_arm.Kalloc.{Kernel, kalloc}
use skinny_arm.Kalloc.FreeList.{Apart, IsFree, IsTaken, kalloc-cons}
use skinny_arm.Pte.{get_page_set, get_physical_addr}
use skinny_arm.Vmem.{
  entry_of, mapped_entry, allocated_entry, leaf_entry, descend, write_entry, map_leaf, install,
  allocate, round, walk,
}
use skinny_arm.Vmem.Leads.{allocated-LeadsTo}
use skinny_arm.Vmem.Translate.{translate, IsPresent, IsTree, not-IsPresent_of_zero}
use skinny_arm.Vmem.Walk.{
  follow-written, linked-zero, linked-IsFree, linked-IsTree, translate-present,
}
use skinny_arm.Vmem.Mapping.{
  IsFrame, round-present, round-map, round-allocate, walk-descend, walk-return,
}

mapped_entry-total : (kind pa : ℕ) → kind ≤ 2 → mapped_entry kind pa ≢ none
unfolding mapped_entry
mapped_entry-total kind pa h = ground arith

allocated_entry-total : (i kind f : ℕ) → i ≤ 3 → kind ≤ 2 → allocated_entry i kind f ≢ none
unfolding allocated_entry leaf_entry
allocated_entry-total i kind f hi h = ground arith

-- A walk that ends with a frame: the given one, if one was given.
pub record Succeeds (n i pt va pa kind : ℕ) (k : Kernel) : Type 0 where
  pub page : ℕ
  pub after : Kernel
  pub run : walk n i pt va pa kind k ≡ (page, after)
  pub not_null : page ≢ 0
  pub given : pa ≢ 0 → page ≡ pa

-- Every walk of an unmapped address with a free frame for each level succeeds.
abbrev pub Completes : (n i va pa kind : ℕ) → Type 0
Completes n i va pa kind =
    (pt : ℕ) (k : Kernel) (fs : List ℕ)
    → IsFree k fs
    → All IsFrame fs
    → IsTree n i k.mem pt va fs
    → n ≤ length fs
    → translate n i k.mem pt va ≡ none
    → Succeeds n i pt va pa kind k

pub translate-of_zero :
    (n i : ℕ) (m : Mem) (f va : ℕ)
    → ((x : ℕ) → within f 4096 x ≡ true → m x ≡ 0)
    → translate (suc n) i m f va ≡ none
unfolding translate
translate-of_zero n i m f va zeros = rw (not-IsPresent_of_zero m f va i zeros)

-- Behind a frame that was just taken nothing is mapped.
Succeeds-of_zero :
    (n i va pa kind : ℕ)
    → Completes n i va pa kind
    → (f : ℕ) (k : Kernel) (fs : List ℕ) → ((x : ℕ) → within f 4096 x ≡ true → k.mem x ≡ 0)
    → f ≢ 0
    → (n ≡ 0 → pa ≡ 0)
    → IsFree k fs
    → All IsFrame fs
    → IsTree n i k.mem f va fs
    → n ≤ length fs
    → Succeeds n i f va pa kind k
unfolding walk
Succeeds-of_zero zero i va pa kind below f k fs zeros ne top free frames tree room = record {
  page = f;
  after = k;
  run = refl;
  not_null = ne;
  given = λ h. absurd (h (top refl));
}
Succeeds-of_zero (suc n) i va pa kind below f k fs zeros ne top free frames tree room =
    below f k fs free frames tree room (translate-of_zero n i k.mem f va zeros)

module _ (n i va pa kind : ℕ) (known : kind ≤ 2) (level : n + i ≡ 3)
    (below : Completes n (i + 1) va pa kind) (pt : ℕ) (k : Kernel) where
  completes_present :
      (fs : List ℕ)
      → IsFree k fs
      → All IsFrame fs
      → IsTree (suc n) i k.mem pt va fs
      → suc n ≤ length fs
      → translate (suc n) i k.mem pt va ≡ none
      → IsPresent k.mem pt va i
      → Succeeds (suc n) i pt va pa kind k
  completes_present fs free frames tree room unmapped present =
      let rest =
        below (get_physical_addr (entry_of k.mem pt va i)) k fs free frames (tree.1 present).1
          (omega arith) (sym (translate-present n i pt va k.mem present) ∙ unmapped) in
      record {
        page = rest.page;
        after = rest.after;
        run = walk-descend n i pt va pa kind k (round-present pt va pa kind i k present) ∙ rest.run;
        not_null = rest.not_null;
        given = rest.given;
      }

  module _ (absent : (get_page_set (entry_of k.mem pt va i) == 0) ≡ true) where
    completes_leaf :
        (i == 3 && not (pa == 0)) ≡ true
        → (e : Option ℕ) → mapped_entry kind pa ≡ e
        → Succeeds (suc n) i pt va pa kind k
    unfolding map_leaf
    completes_leaf last none is = absurd (mapped_entry-total kind pa known is)
    completes_leaf last (some e) is = record {
      page = pa;
      after = write_entry pt va i e k;
      run = walk-return n i pt va pa kind k (round-map pt va pa kind i k absent last ∙ rw is);
      not_null = ground arith;
      given = λ _. refl;
    }

    completes_installed :
        (i == 3 && not (pa == 0)) ≡ false
        → (f : ℕ) (fs : List ℕ) (k1 : Kernel) → kalloc k ≡ some (f, k1)
        → IsTaken k f fs k1
        → IsFree k (f ∷ fs)
        → All IsFrame (f ∷ fs)
        → All (Apart pt) (f ∷ fs)
        → n ≤ length fs
        → (e : Option ℕ) → allocated_entry i kind f ≡ e
        → Succeeds (suc n) i pt va pa kind k
    unfolding allocate install
    completes_installed last f fs k1 got taken free frames apart room none is =
        absurd (allocated_entry-total i kind f (omega arith) known is)
    completes_installed last f fs k1 got taken free frames apart room (some e) is =
        let leads = allocated-LeadsTo f frames.0 i kind e is in
        let step : round pt va pa kind i k ≡ descend f (write_entry pt va i e k1) =
          round-allocate pt va pa kind i k absent last
          ∙ rw (got, is) ((follow-written pt va i k1 e f leads).1) in
        let k2 = write_entry pt va i e k1 in
        let rest =
          Succeeds-of_zero n (i + 1) va pa kind below f k2 fs
            (linked-zero n i pt va f k k k1 f e fs taken leads apart free.apart.0) free.chain.1
            (λ z. ground arith)
            (linked-IsFree n i pt va f k k k1 f e fs taken leads apart free.apart.0) frames.1
            (linked-IsTree n i pt va f k k k1 f e fs taken leads apart free.apart.0) room in
        record {
          page = rest.page;
          after = rest.after;
          run = walk-descend n i pt va pa kind k step ∙ rest.run;
          not_null = rest.not_null;
          given = rest.given;
        }

    completes_allocated :
        (i == 3 && not (pa == 0)) ≡ false
        → (fs : List ℕ) → IsFree k fs
        → All IsFrame fs
        → All (Apart pt) fs
        → suc n ≤ length fs
        → Succeeds (suc n) i pt va pa kind k
    completes_allocated last [] free frames apart room = absurd (omega arith)
    completes_allocated last (f ∷ fs) free frames apart room =
        let (k1, got, taken) = kalloc-cons k f fs free in
        completes_installed last f fs k1 got taken free frames apart (omega arith)
          (allocated_entry i kind f) refl

pub walk-Succeeds : (n i va pa kind : ℕ) → n + i ≡ 4 → kind ≤ 2 → Completes n i va pa kind
unfolding translate
walk-Succeeds zero i va pa kind level known pt k fs free frames tree room unmapped = absurd (cc)
walk-Succeeds (suc n) i va pa kind level known pt k fs free frames tree room unmapped =
    let below : Completes n (i + 1) va pa kind =
      walk-Succeeds n (i + 1) va pa kind (omega arith) known in
    elim (Bool-cases (get_page_set (entry_of k.mem pt va i) == 0)) [
      | inr present ↦
          completes_present n i va pa kind known (omega arith) below pt k fs free frames tree room
            unmapped (==→ne _ 0 present)
      | inl absent ↦ elim (Bool-cases (i == 3 && not (pa == 0))) [
        | inl last ↦
            completes_leaf n i va pa kind known (omega arith) below pt k absent last
              (mapped_entry kind pa) refl
        | inr other ↦
            completes_allocated n i va pa kind known (omega arith) below pt k absent other fs free
              frames tree.0 room
      ]
    ]
