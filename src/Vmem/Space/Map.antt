-- ===== src/Vmem/Space/Map.antt =====
-- kernel/vmem.c's `map_page` as an update of a map from virtual to physical pages.
use skinny_arm.Base.{
  ℕ, zero, suc, ◌+◌, ◌/◌, ◌%◌, ◌^◌, ◌≤◌, ◌<◌, ltb, ◌≡◌, ◌≢◌, inl, inr, refl, sym, ap, ◌∙◌, subst,
  none, some, List, All, length, arith, true, Bool, Bool-cases,
}
use skinny_arm.Bits.{bit_and-511}
use skinny_arm.Memory.{Mem}
use skinny_arm.Kalloc.{Kernel}
use skinny_arm.Kalloc.FreeList.{Apart, IsFree}
use skinny_arm.Pte.{lvl_addr, get_page_set, get_physical_addr}
use skinny_arm.Vmem.{entry_of, get_physical_page, map_page}
use skinny_arm.Vmem.Translate.{lookup, OnPath, IsTree}
use skinny_arm.Vmem.Mapping.{IsFrame}
use skinny_arm.Vmem.Lookup.{map_page-lookup}
use skinny_arm.Vmem.Keeps.{IsAligned}
use skinny_arm.Vmem.Space.{
  hop, table_at, SamePath, IsSpace, table_at-SamePath, hop-present, lookup-eq-table_at,
}
use skinny_arm.Vmem.Space.Page.{walk-IsWalked}

-- The number of a virtual page: bits 12 to 47 of the address.
abbrev pub page : ℕ → ℕ
page va = va / 4096 % 2 ^ 36

lvl_addr_lem :
    (va : ℕ)
    → (lvl_addr va 0 ≡ va / 2 ^ 39 % 512)
      × (lvl_addr va 1 ≡ va / 2 ^ 30 % 512)
      × (lvl_addr va 2 ≡ va / 2 ^ 21 % 512)
      × (lvl_addr va 3 ≡ va / 2 ^ 12 % 512)
unfolding lvl_addr
lvl_addr_lem va = (bit_and-511 _, bit_and-511 _, bit_and-511 _, bit_and-511 _)

pub SamePath-page : (a b : ℕ) → SamePath 4 a b → page a ≡ page b
SamePath-page a b h =
    let (a0, a1, a2, a3) = lvl_addr_lem a in
    let (b0, b1, b2, b3) = lvl_addr_lem b in omega (arith, h)

pub page-SamePath : (a b : ℕ) → page a ≡ page b → SamePath 4 a b
page-SamePath a b h =
    let (a0, a1, a2, a3) = lvl_addr_lem a in
    let (b0, b1, b2, b3) = lvl_addr_lem b in
    ((((tt, omega arith), omega arith), omega arith), omega arith)

Apart-aligned : (a b : ℕ) → IsAligned a → IsAligned b → a ≢ b → Apart a b
Apart-aligned a b ea eb ne = elim (Bool-cases (ltb a b)) [
  | inl less ↦ inl (ground (arith, less))
  | inr more ↦ inr (ground (arith, more))
]

module _ (m : Mem) (root va : ℕ) (fs : List ℕ) (space : IsSpace m root fs) where
  next-table_at :
      (i pt : ℕ)
      → table_at i m root va ≡ some pt
      → get_page_set (entry_of m pt va i) ≢ 0
      → table_at (i + 1) m root va ≡ some (get_physical_addr (entry_of m pt va i))
  next-table_at i pt at present =
      let next : suc i ≡ i + 1 = omega arith in
      subst (λ l. table_at l m root va ≡ some (get_physical_addr (entry_of m pt va i))) next
        (ap (λ o. hop m i va o) at ∙ hop-present m i va pt present)

  IsSpace-OnPath :
      (n i l pt w : ℕ)
      → n + i ≡ 4
      → l < i
      → table_at l m root va ≡ some w
      → table_at i m root va ≡ some pt
      → OnPath (Apart w) n i m pt va
  IsSpace-OnPath zero i l pt w level less at at' = tt
  IsSpace-OnPath (suc n) i l pt w level less at at' = (
    Apart-aligned w pt (space.tables l va w (omega arith) at).0
        (space.tables i va pt (omega arith) at').0
        λ same.
          let (e, path) =
            space.unique l i va va w (omega arith) (omega arith) at (at' ∙ ap some (sym same)) in
          omega arith,
    λ present.
        IsSpace-OnPath n (i + 1) l (get_physical_addr (entry_of m pt va i)) w (omega arith)
          (omega arith) at (next-table_at i pt at' present),
  )

  -- The tables on one path, as the theorems on one address want them.
  pub IsSpace-IsTree :
      (n i pt : ℕ) → n + i ≡ 4 → table_at i m root va ≡ some pt → IsTree n i m pt va fs
  IsSpace-IsTree zero i pt level at = tt
  IsSpace-IsTree (suc n) i pt level at = (
    (space.tables i va pt (omega arith) at).1,
    λ present.
        let pt' = get_physical_addr (entry_of m pt va i) in
        let at' = next-table_at i pt at present in
        (
          IsSpace-OnPath n (i + 1) i pt' pt (omega arith) (omega arith) at at',
          IsSpace-IsTree n (i + 1) pt' (omega arith) at',
        ),
  )

-- A kernel whose tables below `root` form a tree apart from the free frames `fs`, which are page-aligned
-- and below `2 ^ 36`.
pub record IsPaged (k : Kernel) (root : ℕ) (fs : List ℕ) : Type 0 where
  pub free : IsFree k fs
  pub frames : All IsFrame fs
  pub aligned : All IsAligned fs
  pub space : IsSpace k.mem root fs

-- What is left of `k` behind an operation that uses at most `n` of the free frames `fs`, and changes the
-- translation of addresses in `P` only.
pub record IsKept (P : ℕ → Type 0) (n : ℕ) (k : Kernel) (root : ℕ) (fs : List ℕ) (k' : Kernel)
    : Type 0 where
  pub rest : List ℕ
  pub paged : IsPaged k' root rest
  pub room : length fs ≤ length rest + n
  pub others : (va' : ℕ) → ¬ P va' → lookup k'.mem root va' ≡ lookup k.mem root va'

-- The addresses of one page.
abbrev pub OnPage : ℕ → ℕ → Type 0
OnPage va va' = page va' ≡ page va

module _ (root va pa kind : ℕ) (k : Kernel) (fs : List ℕ) (paged : IsPaged k root fs)
    (fits : pa < 2 ^ 36) where
  -- With a tree of page-aligned tables apart from the free frames, page-aligned free frames below `2 ^ 36`
  -- and a page below `2 ^ 36`, `map_page` leaves a tree of page-aligned tables apart from the free
  -- frames, of which it takes at most four, and addresses outside the page translate as before: also those
  -- that did not translate, and also where it fails halfway.
  pub map_page-IsKept : IsKept (OnPage va) 4 k root fs (map_page root va pa kind k).1
  unfolding map_page get_physical_page
  map_page-IsKept =
      let w =
        walk-IsWalked 4 0 root va pa kind refl fits root k fs paged.free paged.frames paged.aligned
          paged.space refl in
      record {
        rest = w.rest;
        paged = record { free = w.free; frames = w.frames; aligned = w.aligned; space = w.space };
        room = w.room;
        others = λ va' off.
            lookup-eq-table_at _ root va'
            ∙ w.others va' (λ path. off (sym (SamePath-page va va' path)))
            ∙ sym (lookup-eq-table_at k.mem root va');
      }

  -- With a kind of at most 2, a page that is not NULL, four free frames and an address that does not
  -- translate, it also succeeds, and all addresses of the page translate to it.
  pub map_page-maps :
      kind ≤ 2
      → pa ≢ 0
      → 4 ≤ length fs
      → lookup k.mem root va ≡ none
      → ((map_page root va pa kind k).0 ≡ true)
        × ((va' : ℕ) → OnPage va va' → lookup (map_page root va pa kind k).1.mem root va' ≡ some pa)
  map_page-maps known ne room unmapped =
      let (k', run, found, kept, rest) =
        map_page-lookup root va kind k fs paged.free paged.frames
          (IsSpace-IsTree k.mem root va fs paged.space 4 0 root refl refl) pa known ne fits room
          unmapped in
      (
        ap (λ r. r.0) run,
        λ va' same.
            lookup-eq-table_at _ root va'
            ∙ table_at-SamePath 4 _ root va' va (page-SamePath va' va same)
            ∙ sym (lookup-eq-table_at _ root va)
            ∙ ap (λ (r : Bool × Kernel). lookup r.1.mem root va) run
            ∙ found,
      )
