-- ===== src/Vmem/Space/Walk.antt =====
-- kernel/vmem.c's `get_physical_page` on the tree of tables: whatever it does, a tree is left, and only
-- the address that it was asked for changes its page.
use skinny_arm.Base.{
  ℕ, zero, suc, ◌+◌, ◌≤◌, ◌<◌, ◌≡◌, ◌≢◌, inl, inr, refl, sym, ap, ◌∙◌, Option, none, some, List,
  ◌∷◌, All, length, arith, ◌==◌, true, ==→eq,
}
use skinny_arm.Memory.{Mem, load64-store64_ne}
use skinny_arm.Kalloc.{Kernel}
use skinny_arm.Kalloc.FreeList.{IsFree, SameOutside}
use skinny_arm.Pte.{get_page_set}
use skinny_arm.Vmem.{slot, entry_of, write_entry, walk}
use skinny_arm.Vmem.Leads.{LeadsTo}
use skinny_arm.Vmem.Translate.{entry_of_ext}
use skinny_arm.Vmem.Walk.{follow-written}
use skinny_arm.Vmem.Mapping.{IsFrame}
use skinny_arm.Vmem.Keeps.{IsAligned, IsTable, apart_of_eighths, slot-eighth}
use skinny_arm.Vmem.Space.{hop, table_at, SamePath, IsSpace}
use skinny_arm.Vmem.Space.Link.{IsLink}

-- What a walk of `n` levels for `va` leaves of a space with the free frames `fs`, with its result `r`.
pub record IsWalked (n root va : ℕ) (fs : List ℕ) (m : Mem) (r : ℕ × Kernel) : Type 0 where
  pub rest : List ℕ
  pub free : IsFree r.1 rest
  pub space : IsSpace r.1.mem root rest
  pub frames : All IsFrame rest
  pub aligned : All IsAligned rest
  pub room : length fs ≤ length rest + n
  pub others : (va' : ℕ) → ¬ SamePath 4 va va' → table_at 4 r.1.mem root va' ≡ table_at 4 m root va'
  pub found : r.0 ≢ 0 → table_at 4 r.1.mem root va ≡ some r.0

-- A change of a free frame is none of the tables.
pub table_at-outside :
    (root f : ℕ) (fs : List ℕ) (m m' : Mem)
    → IsSpace m root (f ∷ fs)
    → SameOutside f m m'
    → (n va : ℕ) → n ≤ 4
    → table_at n m' root va ≡ table_at n m root va
table_at-outside root f fs m m' space same zero va le = refl
table_at-outside root f fs m m' space same (suc n) va le =
    ap (λ o. hop m' n va o) (table_at-outside root f fs m m' space same n va (omega arith))
    ∙ hop-outside (table_at n m root va) refl
  where
    hop-outside : (o : Option ℕ) → table_at n m root va ≡ o → hop m' n va o ≡ hop m n va o
    hop-outside none at = refl
    hop-outside (some v) at =
        let apart = (space.tables n va v (omega arith) at).1.0 in
        rw (entry_of_ext m' m v va n (λ x h. same x (ground (arith, apart)))) refl

pub IsSpace-outside :
    (root f : ℕ) (fs : List ℕ) (m m' : Mem)
    → IsSpace m root (f ∷ fs)
    → SameOutside f m m'
    → IsSpace m' root (f ∷ fs)
IsSpace-outside root f fs m m' space same = record {
  tables = λ n va v lt at. space.tables n va v lt (sym (kept n va (omega arith)) ∙ at);
  unique = λ n n' a b v lt lt' at at'.
      space.unique n n' a b v lt lt' (sym (kept n a (omega arith)) ∙ at)
        (sym (kept n' b (omega arith)) ∙ at');
}
  where
    kept : (n va : ℕ) → n ≤ 4 → table_at n m' root va ≡ table_at n m root va
    kept = table_at-outside root f fs m m' space same

module _ (root pt va i : ℕ) (k : Kernel) (fs : List ℕ) (space : IsSpace k.mem root fs)
    (small : i < 4) (at : table_at i k.mem root va ≡ some pt)
    (absent : (get_page_set (entry_of k.mem pt va i) == 0) ≡ true) where
  -- An entry for `p` in memory `k1`, whose tables are those of `k`.
  pub write-IsLink :
      (k1 : Kernel) (e p : ℕ)
      → LeadsTo e p
      → ((v va' j : ℕ) → IsTable fs v → entry_of k1.mem v va' j ≡ entry_of k.mem v va' j)
      → IsLink k.mem (write_entry pt va i e k1).mem root fs pt va i p
  write-IsLink k1 e p leads same = record {
    table = at;
    absent = ==→eq _ 0 absent;
    entry = e;
    written = (follow-written pt va i k1 e p leads).0;
    leads = leads;
    kept = λ v va' j is ne.
        elim (apart_of_eighths (slot pt va i) (slot v va' j)
          (slot-eighth pt va i (space.tables i va pt small at).0) (slot-eighth v va' j is.0)) [
            | inl e ↦ absurd (ne (sym e))
            | inr apart ↦
                load64-store64_ne k1.mem (slot pt va i) (slot v va' j) e apart ∙ same v va' j is
          ];
  }

-- A walk that ends at once and changes no table.
pub IsWalked-return :
    (n root va : ℕ) (k k' : Kernel) (fs : List ℕ)
    → IsFree k' fs
    → All IsFrame fs
    → All IsAligned fs
    → IsSpace k'.mem root fs
    → ((n va : ℕ) → n ≤ 4 → table_at n k'.mem root va ≡ table_at n k.mem root va)
    → IsWalked n root va fs k.mem (0, k')
IsWalked-return n root va k k' fs free frames aligned space same = record {
  rest = fs;
  free = free;
  space = space;
  frames = frames;
  aligned = aligned;
  room = omega arith;
  others = λ va' other. same 4 va' (omega arith);
  found = λ ne. absurd (ne refl);
}

-- Every walk of `n` levels from level `i`, from the table that `va` has there.
abbrev pub WalkSpace : (n i root va pa kind : ℕ) → Type 0
WalkSpace n i root va pa kind =
    (pt : ℕ) (k : Kernel) (fs : List ℕ)
    → IsFree k fs
    → All IsFrame fs
    → All IsAligned fs
    → IsSpace k.mem root fs
    → table_at i k.mem root va ≡ some pt
    → IsWalked n root va fs k.mem (walk n i pt va pa kind k)
