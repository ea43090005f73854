-- ===== src/Vmem/Space/Fill.antt =====
-- The rounds of kernel/vmem.c's `get_physical_page` on the tree of tables.
use skinny_arm.Base.{
  ℕ, suc, ◌+◌, ◌<◌, ◌≡◌, inl, inr, refl, sym, ap, ◌∙◌, subst, Option, none, some, List, ◌∷◌, All,
  arith, ◌==◌, true, Bool-cases, ==→ne, ==→eq, ◌&&◌, not,
}
use skinny_arm.Memory.{load64}
use skinny_arm.Kalloc.{Kernel}
use skinny_arm.Kalloc.FreeList.{Apart, IsFree, IsTaken}
use skinny_arm.Pte.{get_page_set, get_physical_addr}
use skinny_arm.Vmem.{entry_of, mapped_entry, descend, write_entry, map_leaf, round, walk}
use skinny_arm.Vmem.Leads.{LeadsTo, mapped-LeadsTo}
use skinny_arm.Vmem.Translate.{IsPresent, entry_of_ext}
use skinny_arm.Vmem.Walk.{linked-zero, linked-IsFree, write_entry-IsFree}
use skinny_arm.Vmem.Mapping.{IsFrame, round-present, round-map, walk-descend, walk-return}
use skinny_arm.Vmem.Keeps.{IsAligned}
use skinny_arm.Vmem.Space.{
  hop, table_at, SamePath, IsSpace, SamePath-cases, SamePath-refl, slot_ext, table_at-SamePath,
  table_at-none, hop-present, hop-absent,
}
use skinny_arm.Vmem.Space.Link.{
  IsLink, table_at-kept, table_at-link, table_at-behind, IsSpace-leaf, IsSpace-link,
}
use skinny_arm.Vmem.Space.Walk.{IsWalked, write-IsLink, IsWalked-return, WalkSpace}

-- A frame `f` was taken and linked in at level `i`.
module _ (root pt va i f e : ℕ) (fs : List ℕ) (k k1 : Kernel) (space : IsSpace k.mem root (f ∷ fs))
    (small : i < 4) (at : table_at i k.mem root va ≡ some pt)
    (absent : (get_page_set (entry_of k.mem pt va i) == 0) ≡ true) (taken : IsTaken k f fs k1)
    (leads : LeadsTo e f) (aligned : IsAligned f) (apart : All (Apart f) fs) where
  abbrev pub filled : Kernel
  filled = write_entry pt va i e k1

  table-Apart : All (Apart pt) (f ∷ fs)
  table-Apart = (space.tables i va pt small at).1

  pub filled-IsFree : IsFree filled fs
  filled-IsFree = linked-IsFree 0 i pt va f k k k1 f e fs taken leads table-Apart apart

  pub filled-IsLink : IsLink k.mem filled.mem root (f ∷ fs) pt va i f
  filled-IsLink =
      write-IsLink root pt va i k (f ∷ fs) space small at absent k1 e f leads
        λ v va' j is. entry_of_ext k1.mem k.mem v va' j λ x h. taken.same x (ground (arith, is.1.0))

  pub table_at-filled : table_at (suc i) filled.mem root va ≡ some f
  table_at-filled = table_at-link space small filled-IsLink va (SamePath-refl (suc i) va)

  -- The tables are a tree again.
  pub IsSpace-filled : IsSpace filled.mem root fs
  IsSpace-filled = elim (Bool-cases (i == 3)) [
    | inl last ↦
        let e = ==→eq i 3 last in
        IsSpace-leaf k.mem filled.mem root (f ∷ fs) fs pt va f space
          (subst (λ l. IsLink k.mem filled.mem root (f ∷ fs) pt va l f) e filled-IsLink)
          λ v is. (is.0, is.1.1)
    | inr higher ↦
        let ne = ==→ne i 3 higher in
        IsSpace-link space (omega arith) filled-IsLink
          (linked-zero 0 i pt va f k k k1 f e fs taken leads table-Apart apart) aligned apart
  ]

  -- Nothing but `va` can have changed its page: below the new table nothing is mapped, and nothing was.
  pub filled-others :
      (va' : ℕ) → ¬ SamePath 4 va va' → table_at 4 filled.mem root va' ≡ table_at 4 k.mem root va'
  filled-others va' other = elim (SamePath-cases (suc i) va va') [
    | inr off ↦ table_at-kept space small filled-IsLink 4 va' (omega arith) (inr off)
    | inl path ↦ elim (Bool-cases (i == 3)) [
      | inl last ↦ absurd (other (subst (λ l. SamePath (suc l) va va') (==→eq i 3 last) path))
      | inr higher ↦
          let ne = ==→ne i 3 higher in
          let zeros = linked-zero 0 i pt va f k k k1 f e fs taken leads table-Apart apart in
          let there : table_at i k.mem root va' ≡ some pt =
            sym (table_at-SamePath i k.mem root va va' path.0) ∙ at in
          let missing : get_page_set (entry_of k.mem pt va' i) ≡ 0 =
            subst (λ a. get_page_set (load64 k.mem a) ≡ 0) (slot_ext pt va va' i path.1)
              (==→eq _ 0 absent) in
          let before =
            table_at-none (suc i) 4 k.mem root va'
              (ap (λ o. hop k.mem i va' o) there ∙ hop-absent k.mem i va' pt missing)
              (omega arith) in
          let after =
            table_at-behind space (omega arith) filled-IsLink zeros aligned apart 4 va' path
              (omega arith) in
          after ∙ sym before
    ]
  ]

  -- The walk goes on from the new table.
  pub IsWalked-filled :
      (n : ℕ) (r : ℕ × Kernel)
      → IsWalked n root va fs filled.mem r
      → IsWalked (suc n) root va (f ∷ fs) k.mem r
  IsWalked-filled n r below = record {
    rest = below.rest;
    free = below.free;
    space = below.space;
    frames = below.frames;
    aligned = below.aligned;
    room = omega (arith, below.room);
    others = λ va' other. below.others va' other ∙ filled-others va' other;
    found = below.found;
  }

module _ (n i root va pa kind : ℕ) (level : n + i ≡ 3) (fits : IsFrame pa)
    (below : WalkSpace n (suc i) root va pa kind) (pt : ℕ) (k : Kernel) where
  pub walk-step :
      (pt' : ℕ) (k' : Kernel)
      → round pt va pa kind i k ≡ descend pt' k'
      → walk (suc n) i pt va pa kind k ≡ walk n (suc i) pt' va pa kind k'
  walk-step pt' k' e =
      let next : i + 1 ≡ suc i = omega arith in
      walk-descend n i pt va pa kind k e ∙ ap (λ (j : ℕ). walk n j pt' va pa kind k') next

  pub present-IsWalked :
      (fs : List ℕ)
      → IsFree k fs
      → All IsFrame fs
      → All IsAligned fs
      → IsSpace k.mem root fs
      → table_at i k.mem root va ≡ some pt
      → IsPresent k.mem pt va i
      → IsWalked (suc n) root va fs k.mem (walk (suc n) i pt va pa kind k)
  present-IsWalked fs free frames aligned space at present =
      let pt' = get_physical_addr (entry_of k.mem pt va i) in
      let r =
        below pt' k fs free frames aligned space
          (ap (λ o. hop k.mem i va o) at ∙ hop-present k.mem i va pt present) in
      subst (λ (r : ℕ × Kernel). IsWalked (suc n) root va fs k.mem r)
        (sym (walk-step pt' k (round-present pt va pa kind i k present)))
        (record {
          rest = r.rest;
          free = r.free;
          space = r.space;
          frames = r.frames;
          aligned = r.aligned;
          room = omega (arith, r.room);
          others = r.others;
          found = r.found;
        })

  module _ (fs : List ℕ) (free : IsFree k fs) (frames : All IsFrame fs) (aligned : All IsAligned fs)
      (space : IsSpace k.mem root fs) (at : table_at i k.mem root va ≡ some pt)
      (absent : (get_page_set (entry_of k.mem pt va i) == 0) ≡ true) where
    pub return-IsWalked :
        (r : ℕ × Kernel)
        → walk (suc n) i pt va pa kind k ≡ r
        → IsWalked (suc n) root va fs k.mem r
        → IsWalked (suc n) root va fs k.mem (walk (suc n) i pt va pa kind k)
    return-IsWalked r run is =
        subst (λ (r : ℕ × Kernel). IsWalked (suc n) root va fs k.mem r) (sym run) is

    pub leaf-IsWalked :
        (i == 3 && not (pa == 0)) ≡ true
        → (e : Option ℕ) → mapped_entry kind pa ≡ e
        → IsWalked (suc n) root va fs k.mem (walk (suc n) i pt va pa kind k)
    unfolding map_leaf
    leaf-IsWalked last none is =
        return-IsWalked (0, k)
          (walk-return n i pt va pa kind k (round-map pt va pa kind i k absent last ∙ rw is))
          (IsWalked-return (suc n) root va k k fs free frames aligned space (λ n va le. refl))
    leaf-IsWalked last (some e) is =
        let top : i ≡ 3 = ground (arith, last) in
        let leads = mapped-LeadsTo pa fits kind e is in
        let link =
          write-IsLink root pt va i k fs space (omega arith) at absent k e pa leads
            (λ v va' j is. refl) in
        let link' : IsLink k.mem (write_entry pt va i e k).mem root fs pt va 3 pa =
          subst (λ l. IsLink k.mem (write_entry pt va i e k).mem root fs pt va l pa) top link in
        return-IsWalked (pa, write_entry pt va i e k)
          (walk-return n i pt va pa kind k (round-map pt va pa kind i k absent last ∙ rw is))
          (record {
            rest = fs;
            free = write_entry-IsFree pt va i k e fs free (space.tables i va pt (omega arith) at).1;
            space = IsSpace-leaf k.mem _ root fs fs pt va pa space link' (λ v is. is);
            frames = frames;
            aligned = aligned;
            room = omega arith;
            others = λ va' other.
                table_at-kept space (omega arith) link' 4 va' (omega arith) (inr other);
            found = λ ne. table_at-link space (omega arith) link' va (SamePath-refl 4 va);
          })
