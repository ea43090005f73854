-- ===== src/Vmem/Space/Link.antt =====
-- One entry that kernel/vmem.c's `get_physical_page` writes, and what it does to the tree of tables.
use skinny_arm.Base.{
  ℕ, zero, suc, ◌≤◌, ◌<◌, ltb, ◌≡◌, ◌≢◌, ◌⊎◌, inl, inr, refl, sym, ap, ◌∙◌, subst, Option, none,
  some, List, ◌∷◌, All, arith, ◌==◌, true, Bool-cases, ==→eq,
}
use skinny_arm.Bits.{bit_and-le}
use skinny_arm.Memory.{Mem, within, load64}
use skinny_arm.Kalloc.FreeList.{Apart}
use skinny_arm.Pte.{lvl_addr, get_page_set}
use skinny_arm.Vmem.{slot, entry_of}
use skinny_arm.Vmem.Leads.{LeadsTo}
use skinny_arm.Vmem.Translate.{not-IsPresent_of_zero}
use skinny_arm.Vmem.Keeps.{IsAligned, IsTable}
use skinny_arm.Vmem.Space.{
  hop, table_at, SamePath, IsSpace, SamePath-cases, SamePath-sym, SamePath-trans, slot_ext,
  table_at-SamePath, table_at-none, hop-absent,
}

-- Two slots of page-aligned tables are one only if the tables are, and the indices.
slot-eq :
    (v w va va' i j : ℕ)
    → IsAligned v
    → IsAligned w
    → slot v va i ≡ slot w va' j
    → (v ≡ w) × (lvl_addr va i ≡ lvl_addr va' j)
unfolding slot lvl_addr
slot-eq v w va va' i j av aw e =
    let lo : lvl_addr va i ≤ 511 = bit_and-le _ 0x1ff in
    let lo' : lvl_addr va' j ≤ 511 = bit_and-le _ 0x1ff in (omega arith, omega arith)

-- In the table `t` of level `i` on the path of `va`, where nothing was entered, now stands a link to
-- `p`, and no other entry of a table apart from `fs` is changed.
pub record IsLink (m m' : Mem) (root : ℕ) (fs : List ℕ) (t va i p : ℕ) : Type 0 where
  pub table : table_at i m root va ≡ some t
  pub absent : get_page_set (entry_of m t va i) ≡ 0
  pub entry : ℕ
  pub written : entry_of m' t va i ≡ entry
  pub leads : LeadsTo entry p
  pub kept :
      (v va' j : ℕ)
      → IsTable fs v
      → slot v va' j ≢ slot t va i
      → entry_of m' v va' j ≡ entry_of m v va' j

module _ {m m' : Mem} {root : ℕ} {fs : List ℕ} {t va i p : ℕ} (space : IsSpace m root fs)
    (small : i < 4) (link : IsLink m m' root fs t va i p) where
  -- Where the slot is not on the way nothing changes.
  pub table_at-kept :
      (n va' : ℕ)
      → n ≤ 4
      → (n ≤ i) ⊎ ¬ SamePath (suc i) va va'
      → table_at n m' root va' ≡ table_at n m root va'
  table_at-kept zero va' le off = refl
  table_at-kept (suc n) va' le off =
      ap (λ o. hop m' n va' o) (table_at-kept n va' (omega arith) before)
      ∙ hop-kept (table_at n m root va') refl
    where
      before : (n ≤ i) ⊎ ¬ SamePath (suc i) va va'
      before = elim off [ inl less ↦ inl (omega arith) | inr other ↦ inr other ]

      elsewhere : (v : ℕ) → table_at n m root va' ≡ some v → slot v va' n ≢ slot t va i
      elsewhere v at same =
          let is = space.tables n va' v (omega arith) at in
          let is' = space.tables i va t small link.table in
          let (e, index) = slot-eq v t va' va n i is.0 is'.0 same in
          let at' : table_at n m root va' ≡ some t = at ∙ ap some e in
          let (level, path) = space.unique n i va' va t (omega arith) small at' link.table in
          elim off [
            | inl less ↦ omega arith
            | inr other ↦ other (
              subst (λ l. SamePath l va va') level (SamePath-sym n va' va path),
              sym (subst (λ l. lvl_addr va' l ≡ lvl_addr va i) level index),
            )
          ]

      hop-kept : (o : Option ℕ) → table_at n m root va' ≡ o → hop m' n va' o ≡ hop m n va' o
      hop-kept none at = refl
      hop-kept (some v) at =
          rw (link.kept v va' n (space.tables n va' v (omega arith) at) (elsewhere v at)) refl

  -- On the way the new link leads to `p`.
  pub table_at-link : (va' : ℕ) → SamePath (suc i) va va' → table_at (suc i) m' root va' ≡ some p
  table_at-link va' path =
      let at : table_at i m' root va' ≡ some t =
        table_at-kept i va' (omega arith) (inl (omega arith))
        ∙ sym (table_at-SamePath i m root va va' path.0)
        ∙ link.table in
      let there : entry_of m' t va' i ≡ link.entry =
        ap (λ a. load64 m' a) (sym (slot_ext t va va' i path.1)) ∙ link.written in
      ap (λ o. hop m' i va' o) at ∙ rw (there, link.leads.present, link.leads.address) refl

Apart-irrefl : (f : ℕ) → ¬ Apart f f
Apart-irrefl f h = omega arith

-- A link at the last level leaves the tables as they are.
pub IsSpace-leaf :
    (m m' : Mem) (root : ℕ) (fs fs' : List ℕ) (t va p : ℕ)
    → IsSpace m root fs
    → IsLink m m' root fs t va 3 p
    → ((v : ℕ) → IsTable fs v → IsTable fs' v)
    → IsSpace m' root fs'
IsSpace-leaf m m' root fs fs' t va p space link fewer = record {
  tables = λ n va' v lt at. fewer v (space.tables n va' v lt (sym (same n va' lt) ∙ at));
  unique = λ n n' a b v lt lt' at at'.
      space.unique n n' a b v lt lt' (sym (same n a lt) ∙ at) (sym (same n' b lt') ∙ at');
}
  where
    same : (n va' : ℕ) → n < 4 → table_at n m' root va' ≡ table_at n m root va'
    same n va' lt = table_at-kept space (omega arith) link n va' (omega arith) (inl (omega arith))

-- A link to an empty frame at a level above adds one table.
module _ {m m' : Mem} {root f : ℕ} {fs : List ℕ} {t va i : ℕ} (space : IsSpace m root (f ∷ fs))
    (small : i < 3) (link : IsLink m m' root (f ∷ fs) t va i f)
    (zeros : (x : ℕ) → within f 4096 x ≡ true → m' x ≡ 0) (aligned : IsAligned f)
    (apart : All (Apart f) fs) where
  -- Behind the new table there is nothing.
  pub table_at-behind :
      (n va' : ℕ) → SamePath (suc i) va va' → suc (suc i) ≤ n → table_at n m' root va' ≡ none
  table_at-behind n va' path le =
      table_at-none (suc (suc i)) n m' root va'
        (ap (λ o. hop m' (suc i) va' o) (table_at-link space (omega arith) link va' path)
          ∙ hop-absent m' (suc i) va' f (not-IsPresent_of_zero m' f va' (suc i) zeros))
        le

  -- A table is an old one or the new one.
  table-cases :
      (n va' v : ℕ)
      → n < 4
      → table_at n m' root va' ≡ some v
      → (table_at n m root va' ≡ some v) ⊎ ((n ≡ suc i) × SamePath (suc i) va va' × (v ≡ f))
  table-cases n va' v lt at = elim (SamePath-cases (suc i) va va') [
    | inr other ↦
        inl (sym (table_at-kept space (omega arith) link n va' (omega arith) (inr other)) ∙ at)
    | inl path ↦ elim (Bool-cases (ltb n (suc i))) [
      | inl above ↦ inl (
          sym (
            table_at-kept space (omega arith) link n va' (omega arith)
              (inl (ground (arith, above))))
          ∙ at)
      | inr below ↦ elim (Bool-cases (n == suc i)) [
        | inl here ↦
            let e = ==→eq n (suc i) here in
            let there = table_at-link space (omega arith) link va' path in
            let at' = subst (λ l. table_at l m' root va' ≡ some v) e at in
            let same : v ≡ f = cc (at', there) in inr (e, path, same)
        | inr deep ↦ absurd (cc (at, table_at-behind n va' path (ground (arith, below, deep))))
      ]
    ]
  ]

  -- The new table is no old one.
  not_old : (n va' : ℕ) → n < 4 → table_at n m root va' ≢ some f
  not_old n va' lt at = Apart-irrefl f ((space.tables n va' f lt at).1.0)

  pub IsSpace-link : IsSpace m' root fs
  IsSpace-link = record {
    tables = λ n va' v lt at. elim (table-cases n va' v lt at) [
      | inl old ↦ let is = space.tables n va' v lt old in (is.0, is.1.1)
      | inr (e, path, same) ↦ subst (IsTable fs) (sym same) (aligned, apart)
    ];
    unique = λ n n' a b v lt lt' at at'. elim (table-cases n a v lt at) [
      | inl old ↦ elim (table-cases n' b v lt' at') [
        | inl old' ↦ space.unique n n' a b v lt lt' old old'
        | inr (e, path, same) ↦ absurd (not_old n a lt (old ∙ ap some same))
      ]
      | inr (e, path, same) ↦ elim (table-cases n' b v lt' at') [
        | inl old' ↦ absurd (not_old n' b lt' (old' ∙ ap some same))
        | inr (e', path', same') ↦ (
          e ∙ sym e',
          subst (λ l. SamePath l a b) (sym e)
              (SamePath-trans (suc i) a va b (SamePath-sym (suc i) va a path) path'),
        )
      ]
    ];
  }
