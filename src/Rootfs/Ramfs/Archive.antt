-- ===== src/Rootfs/Ramfs/Archive.antt =====
-- Archives for kernel/rootfs.c's `init_ramfs`: a description of the bytes that is independent of the
-- code that reads them, and what of memory they depend on.
use skinny_arm.Base.{
  ℕ, zero, suc, ◌+◌, ◌*◌, ◌/◌, ◌^◌, ◌≤◌, ◌<◌, ◌≡◌, ◌≢◌, ◌∙◌, Bool, true, false, List, [], ◌∷◌, ◌++◌,
  All, length, arith,
}
use skinny_arm.Memory.{Mem}
use skinny_arm.Rootfs.Hex.{IsPrinted}
use skinny_arm.Rootfs.Header.{Holds, newc_mark, trailer_mark, file_mode, dir_mode}

-- A file or a directory at the top of the tree.
pub record Entry : Type 0 where
  pub is_regular : Bool
  pub name : List ℕ
  pub file_size : ℕ

abbrev pub ident : Bool → List ℕ
ident true = file_mode
ident false = dir_mode

-- The header of `e` at `s`, with its name.
pub record IsEntry (m : Mem) (s : ℕ) (e : Entry) : Type 0 where
  pub marked : Holds m s newc_mark
  pub mode : Holds m (s + 18) (ident e.is_regular)
  pub sized : IsPrinted m (s + 54) 8 e.file_size
  pub name_sized : IsPrinted m (s + 94) 8 (length e.name + 1)
  pub named : Holds m (s + 110) (e.name ++ 0 ∷ [])
  pub flat : All (λ c. (c ≢ 0) × (c ≢ 47)) e.name
  pub bytes : All (λ c. c < 256) e.name
  pub short : length e.name < 16
  pub small : e.file_size < 2 ^ 32
  pub no_end : ¬ Holds m (s + 110) trailer_mark

-- The next multiple of four.
abbrev pub aligned : ℕ → ℕ
aligned x = (x + 3) / 4 * 4

-- Where the header behind `e` stands.
abbrev pub behind : ℕ → Entry → ℕ
behind s e = aligned (110 + (length e.name + 1)) + s + aligned e.file_size

-- The entries `es` from `s` on, and the mark of the end with its name at `end`.
abbrev pub IsArchive : Mem → (s : ℕ) → List Entry → (end : ℕ) → Type 0
IsArchive m s [] end = Holds m s newc_mark × Holds m (s + 110) trailer_mark × (end ≡ s + 110)
IsArchive m s (e ∷ es) end = IsEntry m s e × (behind s e < 2 ^ 64) × IsArchive m (behind s e) es end

-- Memory `n` has the bytes of `m` from `a` on.
abbrev pub SameFrom : (a : ℕ) → Mem → Mem → Type 0
SameFrom a m n = (x : ℕ) → a ≤ x → n x ≡ m x

-- Bytes at the same addresses.
pub Holds-ext :
    (m n : Mem) (p : ℕ) (cs : List ℕ)
    → ((x : ℕ) → p ≤ x → x < p + length cs → n x ≡ m x)
    → Holds m p cs
    → Holds n p cs
Holds-ext m n p [] same h = tt
Holds-ext m n p (c ∷ cs) same h = (
  same p (omega arith) (omega arith) ∙ h.0,
  Holds-ext m n (p + 1) cs (λ x lo hi. same x (omega arith) (omega arith)) h.1,
)

module _ (a : ℕ) (m n : Mem) (same : SameFrom a m n) where
  pub Holds-from : (p : ℕ) (cs : List ℕ) → a ≤ p → Holds m p cs → Holds n p cs
  Holds-from p [] le h = tt
  Holds-from p (c ∷ cs) le h = (same p le ∙ h.0, Holds-from (p + 1) cs (omega arith) h.1)

  Holds-back : (p : ℕ) (cs : List ℕ) → a ≤ p → Holds n p cs → Holds m p cs
  Holds-back p [] le h = tt
  Holds-back p (c ∷ cs) le h =
      (omega (arith, same p le, h.0), Holds-back (p + 1) cs (omega arith) h.1)

  IsPrinted-from : (s k v : ℕ) → a ≤ s → IsPrinted m s k v → IsPrinted n s k v
  IsPrinted-from s zero v le h = h
  IsPrinted-from s (suc k) v le h =
      (IsPrinted-from s k (v / 16) le h.0, same (s + k) (omega arith) ∙ h.1)

  IsEntry-from : (s : ℕ) (e : Entry) → a ≤ s → IsEntry m s e → IsEntry n s e
  IsEntry-from s e le is = record {
    marked = Holds-from s newc_mark le is.marked;
    mode = Holds-from (s + 18) (ident e.is_regular) (omega arith) is.mode;
    sized = IsPrinted-from (s + 54) 8 e.file_size (omega arith) is.sized;
    name_sized = IsPrinted-from (s + 94) 8 (length e.name + 1) (omega arith) is.name_sized;
    named = Holds-from (s + 110) (e.name ++ 0 ∷ []) (omega arith) is.named;
    flat = is.flat;
    bytes = is.bytes;
    short = is.short;
    small = is.small;
    no_end = λ h. is.no_end (Holds-back (s + 110) trailer_mark (omega arith) h);
  }

  pub IsArchive-from :
      (s : ℕ) (es : List Entry) (end : ℕ) → a ≤ s → IsArchive m s es end → IsArchive n s es end
  IsArchive-from s [] end le is =
      (Holds-from s newc_mark le is.0, Holds-from (s + 110) trailer_mark (omega arith) is.1, is.2)
  IsArchive-from s (e ∷ es) end le is =
      (IsEntry-from s e le is.0, is.1, IsArchive-from (behind s e) es end (omega arith) is.2)
