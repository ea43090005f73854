-- ===== src/Vmem/Space.antt =====
-- The tables of kernel/vmem.c that can be reached from a root, for all addresses at once.
pub mod Link
pub mod Walk
pub mod Fill
pub mod Page
pub mod Map
pub mod Region
pub mod Kernel
use skinny_arm.Base.{
  ℕ, zero, suc, ◌+◌, ◌*◌, ◌%◌, ◌≤◌, ◌<◌, ◌≡◌, ◌≢◌, ◌⊎◌, inl, inr, refl, sym, ap, ap₂, ◌∙◌, subst,
  Option, none, some, List, All, arith, ◌==◌, if◌then◌else◌, true, false, Bool-cases, eq→==, ==→eq,
  ==→ne, ne→==, Option-cases,
}
use skinny_arm.Memory.{Mem}
use skinny_arm.Kalloc.FreeList.{Apart}
use skinny_arm.Pte.{lvl_addr, get_page_set, get_physical_addr}
use skinny_arm.Vmem.{slot, entry_of}
use skinny_arm.Vmem.Translate.{translate, lookup, IsPresent, IsTree, OnPath}
use skinny_arm.Vmem.Keeps.{IsAligned, IsTable}

-- One level down from a table, if there is one.
abbrev pub hop : Mem → (i va : ℕ) → Option ℕ → Option ℕ
hop m i va none = none
hop m i va (some v) =
    if get_page_set (entry_of m v va i) == 0
    then none
    else some (get_physical_addr (entry_of m v va i))

-- The table of level `n` that an address meets; level 4 is its page.
abbrev pub table_at : (n : ℕ) → Mem → (root va : ℕ) → Option ℕ
table_at zero m root va = some root
table_at (suc n) m root va = hop m n va (table_at n m root va)

-- Two addresses with the same indices in the tables of levels below `n`.
abbrev pub SamePath : (n va va' : ℕ) → Type 0
SamePath zero va va' = Unit
SamePath (suc n) va va' = SamePath n va va' × (lvl_addr va n ≡ lvl_addr va' n)

-- The tables are page-aligned and apart from the free frames, and each has one place in the tree.
pub record IsSpace (m : Mem) (root : ℕ) (fs : List ℕ) : Type 0 where
  pub tables : (n va v : ℕ) → n < 4 → table_at n m root va ≡ some v → IsTable fs v
  pub unique :
      (n n' va va' v : ℕ)
      → n < 4
      → n' < 4
      → table_at n m root va ≡ some v
      → table_at n' m root va' ≡ some v
      → (n ≡ n') × SamePath n va va'

pub SamePath-cases : (n va va' : ℕ) → SamePath n va va' ⊎ ¬ SamePath n va va'
SamePath-cases zero va va' = inl tt
SamePath-cases (suc n) va va' = elim (SamePath-cases n va va') [
  | inr other ↦ inr (λ h. other h.0)
  | inl same ↦ elim (Bool-cases (lvl_addr va n == lvl_addr va' n)) [
    | inl e ↦ inl (same, ==→eq _ _ e)
    | inr ne ↦ inr (λ h. ==→ne _ _ ne h.1)
  ]
]

pub SamePath-refl : (n va : ℕ) → SamePath n va va
SamePath-refl zero va = tt
SamePath-refl (suc n) va = (SamePath-refl n va, refl)

pub SamePath-sym : (n va va' : ℕ) → SamePath n va va' → SamePath n va' va
SamePath-sym zero va va' h = tt
SamePath-sym (suc n) va va' h = (SamePath-sym n va va' h.0, sym h.1)

pub SamePath-trans : (n a b c : ℕ) → SamePath n a b → SamePath n b c → SamePath n a c
SamePath-trans zero a b c h g = tt
SamePath-trans (suc n) a b c h g = (SamePath-trans n a b c h.0 g.0, h.1 ∙ g.1)

pub slot_ext : (v va va' i : ℕ) → lvl_addr va i ≡ lvl_addr va' i → slot v va i ≡ slot v va' i
unfolding slot
slot_ext v va va' i e = ap (λ l. v + 8 * l) e

-- Addresses on the same path meet the same table.
pub table_at-SamePath :
    (n : ℕ) (m : Mem) (root va va' : ℕ)
    → SamePath n va va'
    → table_at n m root va ≡ table_at n m root va'
table_at-SamePath zero m root va va' h = refl
table_at-SamePath (suc n) m root va va' h =
    ap (λ t. hop m n va t) (table_at-SamePath n m root va va' h.0) ∙ hop_ext (table_at n m root va')
  where
    hop_ext : (t : Option ℕ) → hop m n va t ≡ hop m n va' t
    hop_ext none = refl
    hop_ext (some v) = rw (slot_ext v va va' n h.1) refl

pub table_at-none :
    (n k : ℕ) (m : Mem) (root va : ℕ)
    → table_at n m root va ≡ none
    → n ≤ k
    → table_at k m root va ≡ none
table_at-none n zero m root va e le =
    let z : n ≡ 0 = omega arith in
    let e' : table_at 0 m root va ≡ none = subst (λ l. table_at l m root va ≡ none) z e in
    absurd (cc e')
table_at-none n (suc k) m root va e le = elim (Bool-cases (n == suc k)) [
  | inl last ↦ subst (λ l. table_at l m root va ≡ none) (==→eq n (suc k) last) e
  | inr before ↦
      let ne = ==→ne n (suc k) before in
      ap (λ t. hop m k va t) (table_at-none n k m root va e (omega arith))
]

pub hop-present :
    (m : Mem) (i va v : ℕ)
    → IsPresent m v va i
    → hop m i va (some v) ≡ some (get_physical_addr (entry_of m v va i))
hop-present m i va v present = rw (ne→== _ 0 present) refl

pub hop-absent :
    (m : Mem) (i va v : ℕ) → get_page_set (entry_of m v va i) ≡ 0 → hop m i va (some v) ≡ none
hop-absent m i va v absent = rw (eq→== _ 0 absent) refl

-- From a table on, the description of a translation goes the same way.
translate-table_at :
    (k n l : ℕ) (m : Mem) (root v va : ℕ)
    → n + k ≡ l
    → table_at n m root va ≡ some v
    → translate k n m v va ≡ table_at l m root va
unfolding translate
translate-table_at zero n l m root v va e at =
    let same : n ≡ l = omega arith in sym at ∙ ap (λ (j : ℕ). table_at j m root va) same
translate-table_at (suc k) n l m root v va e at =
    elim (Bool-cases (get_page_set (entry_of m v va n) == 0)) [
      | inl absent ↦
          rw (absent, translate)
            (sym (
              table_at-none (suc n) l m root va
                (ap (λ t. hop m n va t) at ∙ hop-absent m n va v (==→eq _ 0 absent)) (omega arith)))
      | inr present ↦
          let next : n + 1 ≡ suc n = omega arith in
          rw (present, translate, next)
            (translate-table_at k (suc n) l m root (get_physical_addr (entry_of m v va n)) va
              (omega arith) (ap (λ t. hop m n va t) at ∙ hop-present m n va v (==→ne _ 0 present)))
    ]

pub lookup-eq-table_at : (m : Mem) (root va : ℕ) → lookup m root va ≡ table_at 4 m root va
unfolding lookup
lookup-eq-table_at m root va = translate-table_at 4 0 4 m root root va refl refl
