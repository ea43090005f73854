-- ===== src/Vmem/Translate.antt =====
-- The page table of kernel/vmem.c as a map from virtual to physical pages: the same four levels,
-- read without filling anything in, and the entries read as the macros GET_PAGE_SET and
-- GET_PHYSICAL_ADDR read them.
use skinny_arm.Base.{
  ℕ, zero, suc, ◌+◌, ◌^◌, ◌≤◌, ◌<◌, ◌≡◌, ◌≢◌, Option, none, some, List, All, arith, ◌==◌,
  if◌then◌else◌, true,
}
use skinny_arm.Bits.{bit_and-le, bit_or-lt, bit-zero}
use skinny_arm.Memory.{Mem, load64_ext, load64-of_zero, within}
use skinny_arm.Kalloc.FreeList.{Apart}
use skinny_arm.Pte.{complement, lvl_addr, set_bit, get_page_set, get_physical_addr}
use skinny_arm.Pte.Fields.{get_bit-eq-bit}
use skinny_arm.Vmem.{slot, entry_of}

-- `n` levels left, from level `i`.
unfoldable pub translate : (n i : ℕ) → Mem → (pagetable va : ℕ) → Option ℕ
translate zero i m pagetable va = some pagetable
translate (suc n) i m pagetable va =
    let e = entry_of m pagetable va i in
    let rest = translate n (i + 1) m (get_physical_addr e) va in
    if get_page_set e == 0 then none else rest

unfoldable pub lookup : Mem → (pagetable va : ℕ) → Option ℕ
lookup m pagetable va = translate 4 0 m pagetable va

-- The entry for `va` in a table of level `i` says that its page is set.
abbrev pub IsPresent : Mem → (pagetable va i : ℕ) → Type 0
IsPresent m pagetable va i = get_page_set (entry_of m pagetable va i) ≢ 0

-- `P` holds of every table that a walk for `va` meets, as far as tables are there.
abbrev pub OnPath : (ℕ → Type 0) → (n i : ℕ) → Mem → (pagetable va : ℕ) → Type 0
OnPath P zero i m pagetable va = Unit
OnPath P (suc n) i m pagetable va =
    P pagetable
    × (IsPresent m pagetable va i
        → OnPath P n (i + 1) m (get_physical_addr (entry_of m pagetable va i)) va)

-- The tables on the path of `va` are frames apart from one another and from the free frames.
abbrev pub IsTree : (n i : ℕ) → Mem → (pagetable va : ℕ) → List ℕ → Type 0
IsTree zero i m pagetable va fs = Unit
IsTree (suc n) i m pagetable va fs =
    All (Apart pagetable) fs
    × (IsPresent m pagetable va i
        → OnPath (Apart pagetable) n (i + 1) m (get_physical_addr (entry_of m pagetable va i)) va
          × IsTree n (i + 1) m (get_physical_addr (entry_of m pagetable va i)) va fs)

-- A slot lies inside its table.
pub slot_bounds :
    (pagetable va i : ℕ)
    → (pagetable ≤ slot pagetable va i) × (slot pagetable va i + 8 ≤ pagetable + 4096)
unfolding slot lvl_addr
slot_bounds pagetable va i =
    let h : lvl_addr va i ≤ 511 = bit_and-le _ 0x1ff in (omega arith, omega arith)

-- A table that is all zero has no entry.
pub not-IsPresent_of_zero :
    (m : Mem) (pagetable va i : ℕ)
    → ((x : ℕ) → within pagetable 4096 x ≡ true → m x ≡ 0)
    → get_page_set (entry_of m pagetable va i) ≡ 0
not-IsPresent_of_zero m pagetable va i zeros =
    let (lo, hi) = slot_bounds pagetable va i in
    rw
      (
        load64-of_zero m (slot pagetable va i) (λ x a b. zeros x (ground arith)),
        get_bit-eq-bit 0 10,
      )
      (bit-zero 10)

-- Two memories that agree on a table agree on its entries.
pub entry_of_ext :
    (m n : Mem) (pagetable va i : ℕ)
    → ((x : ℕ) → within pagetable 4096 x ≡ true → m x ≡ n x)
    → entry_of m pagetable va i ≡ entry_of n pagetable va i
entry_of_ext m n pagetable va i same =
    let (lo, hi) = slot_bounds pagetable va i in
    load64_ext m n (slot pagetable va i) λ x a b. same x (ground arith)

pub set_bit-lt : (x b v : ℕ) → set_bit x b v < 2 ^ 64
unfolding set_bit
set_bit-lt x b v = bit_or-lt 64 _ _ (omega (arith, bit_and-le x (complement (2 ^ b)))) (omega arith)
