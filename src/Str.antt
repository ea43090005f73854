-- ===== src/Str.antt =====
-- kernel/string.c over byte memory.
use skinny_arm.Base.{
  ℕ, zero, suc, ◌+◌, ◌<◌, ◌≡◌, ◌≢◌, refl, ap, ◌∙◌, subst, Bool, true, false, Option, none, some,
  arith, ◌==◌, if◌then◌else◌,
}
use skinny_arm.Memory.{Mem, store8}

-- The `for` of `strcpy`, with `n` rounds left: neither pointer moves.
unfoldable pub strcpy_loop : (n src dst : ℕ) → Mem → Mem
strcpy_loop zero src dst m = m
strcpy_loop (suc n) src dst m = strcpy_loop n src dst (store8 m dst (m src))

unfoldable pub strcpy : (src dst size : ℕ) → Mem → Mem
strcpy src dst size m = strcpy_loop size src dst m

-- A memory of bytes.
abbrev pub IsBytes : Mem → Type 0
IsBytes m = (x : ℕ) → m x < 256

strcpy_loop_lem :
    (n src dst : ℕ) (m : Mem)
    → IsBytes m
    → (x : ℕ)
    → strcpy_loop n src dst m x ≡ (if n == 0 then m x else if x == dst then m src else m x)
unfolding strcpy_loop store8
strcpy_loop_lem zero src dst m bytes x = ground arith
strcpy_loop_lem (suc n) src dst m bytes x = ground (
  arith,
  bytes src,
  strcpy_loop_lem n src dst (store8 m dst (m src)) (λ y. ground (arith, bytes src, bytes y)) x,
)

-- In a memory of bytes, whatever the size, `strcpy` copies one byte, the first, and writes nothing
-- else; with size 0 it writes nothing.
pub strcpy_copies_first :
    (src dst size : ℕ) (m : Mem)
    → IsBytes m
    → (x : ℕ)
    → strcpy src dst size m x ≡ (if size == 0 then m x else if x == dst then m src else m x)
unfolding strcpy
strcpy_copies_first src dst size m bytes x = strcpy_loop_lem size src dst m bytes x

strcpy_loop-outside : (n src dst : ℕ) (m : Mem) (x : ℕ) → x ≢ dst → strcpy_loop n src dst m x ≡ m x
unfolding strcpy_loop store8
strcpy_loop-outside zero src dst m x ne = refl
strcpy_loop-outside (suc n) src dst m x ne =
    ground (arith, strcpy_loop-outside n src dst (store8 m dst (m src)) x ne)

-- `strcpy` writes at most at its target.
pub strcpy-outside : (src dst size : ℕ) (m : Mem) (x : ℕ) → x ≢ dst → strcpy src dst size m x ≡ m x
unfolding strcpy
strcpy-outside src dst size m x ne = strcpy_loop-outside size src dst m x ne

-- The `while` of `strequal` on fuel.
unfoldable pub strequal : (fuel str1 str2 : ℕ) → Mem → Option Bool
strequal zero c1 c2 m = none
strequal (suc fuel) c1 c2 m =
    let rest = strequal fuel (c1 + 1) (c2 + 1) m in
    if m c1 == 0 then some true else if m c1 == m c2 then rest else some false

-- A string of `n` characters at `s`, with its final NUL.
pub record IsString (m : Mem) (s n : ℕ) : Type 0 where
  pub chars : (i : ℕ) → i < n → m (s + i) ≢ 0
  pub end : m (s + n) ≡ 0

IsString-tail : (m : Mem) (s n : ℕ) → IsString m s (suc n) → IsString m (s + 1) n
IsString-tail m s n is = record {
  chars = λ i h. subst (λ x. m x ≢ 0) (omega arith) (is.chars (i + 1) (omega arith));
  end = ap m (omega arith) ∙ is.end;
}

at_start : (m : Mem) (s : ℕ) → m (s + 0) ≡ m s
at_start m s = ap m (omega arith)

strequal-prefix :
    (n fuel str1 str2 : ℕ) (m : Mem)
    → IsString m str1 n
    → n < fuel
    → ((i : ℕ) → i < n → m (str1 + i) ≡ m (str2 + i))
    → strequal fuel str1 str2 m ≡ some true
unfolding strequal
strequal-prefix n zero a b m is enough same = absurd (omega arith)
strequal-prefix zero (suc fuel) a b m is enough same = ground (arith, at_start m a, is.end)
strequal-prefix (suc n) (suc fuel) a b m is enough same =
    let rest =
      strequal-prefix n fuel (a + 1) (b + 1) m (IsString-tail m a n is) (omega arith)
        λ i h. ap m (omega arith) ∙ same (i + 1) (omega arith) ∙ ap m (omega arith) in
    ground (arith, at_start m a, at_start m b, is.chars 0, same 0, rest)

strequal-differs :
    (n fuel str1 str2 i : ℕ) (m : Mem)
    → IsString m str1 n
    → n < fuel
    → i < n
    → m (str1 + i) ≢ m (str2 + i)
    → strequal fuel str1 str2 m ≡ some false
unfolding strequal
strequal-differs n zero a b i m is enough in_it ne = absurd (omega arith)
strequal-differs zero (suc fuel) a b i m is enough in_it ne = absurd (omega arith)
strequal-differs (suc n) (suc fuel) a b zero m is enough in_it ne =
    ground (arith, at_start m a, at_start m b, is.chars 0, ne)
strequal-differs (suc n) (suc fuel) a b (suc i) m is enough in_it ne =
    let rest =
      strequal-differs n fuel (a + 1) (b + 1) i m (IsString-tail m a n is) (omega arith)
        (omega arith) λ e. ne (ap m (omega arith) ∙ e ∙ ap m (omega arith)) in
    ground (arith, at_start m a, is.chars 0, rest)

-- `strequal` of a string that ends: it returns, with 1 if the first string's characters stand at the
-- start of the second, which may be longer, and with 0 if one of them differs.
pub strequal_lem :
    (n fuel str1 str2 : ℕ) (m : Mem)
    → IsString m str1 n
    → n < fuel
    → (((i : ℕ) → i < n → m (str1 + i) ≡ m (str2 + i)) → strequal fuel str1 str2 m ≡ some true)
      × ((i : ℕ) → i < n → m (str1 + i) ≢ m (str2 + i) → strequal fuel str1 str2 m ≡ some false)
strequal_lem n fuel a b m is enough =
    (strequal-prefix n fuel a b m is enough, λ i. strequal-differs n fuel a b i m is enough)
