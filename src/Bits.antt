-- ===== src/Bits.antt =====
-- Binary digits of a number, and what the C operators `&` and `|` do to each.
-- No code of the repository stands here: these are the laws that kernel/vmem.c's macros need.
use Prim.Native.Nat.{min, max, digits, bitwise, bit_and-bitwise, bit_or-bitwise}
use native.Mathlib.Nat.{pow-suc, div-div-eq-div-mul, div-eq_of_lt, add-zero}
use skinny_arm.Base.{
  ℕ, zero, suc, ◌+◌, ◌*◌, ◌/◌, ◌%◌, ◌^◌, ◌≤◌, ◌<◌, bit_and, bit_or, ◌≡◌, refl, sym, ap, ap₂, ◌∙◌,
  Bool, true, ◌&&◌, arith,
}

-- Binary digit `i` of `x`.
unfoldable pub bit : ℕ → ℕ → ℕ
bit x zero = x % 2
bit x (suc i) = bit (x / 2) i

pub bit-lt : (x i : ℕ) → bit x i < 2
unfolding bit
bit-lt x zero = omega arith
bit-lt x (suc i) = bit-lt (x / 2) i

pub bit-zero : (i : ℕ) → bit 0 i ≡ 0
unfolding bit
bit-zero zero = refl
bit-zero (suc i) = bit-zero i

-- The recursion behind the native operations does not depend on its fuel.
module _ (z : ℕ → ℕ) (f : ℕ → ℕ → ℕ) where
  enough_fuel : (m n a b : ℕ) → a ≤ m → a ≤ n → digits z f m a b ≡ digits z f n a b
  enough_fuel zero zero a b p q = refl
  enough_fuel zero (suc n) zero b p q = refl
  enough_fuel zero (suc n) (suc a) b p q = absurd (omega arith)
  enough_fuel (suc m) zero zero b p q = refl
  enough_fuel (suc m) zero (suc a) b p q = absurd (omega arith)
  enough_fuel (suc m) (suc n) zero b p q = refl
  enough_fuel (suc m) (suc n) (suc a) b p q =
      omega (arith, enough_fuel m n (suc a / 2) (b / 2) (omega arith) (omega arith))

  bitwise_digit :
      (a b : ℕ)
      → bitwise z f (suc a) b ≡ bitwise z f (suc a / 2) (b / 2) * 2 + f (suc a % 2) (b % 2)
  bitwise_digit a b =
      omega (arith, enough_fuel a (suc a / 2) (suc a / 2) (b / 2) (omega arith) (omega arith))

and_digit : (a b : ℕ) → bit_and a b ≡ bit_and (a / 2) (b / 2) * 2 + min (a % 2) (b % 2)
and_digit zero b = simp bit_and-bitwise (omega arith)
and_digit (suc a) b = simp bit_and-bitwise (bitwise_digit (λ _. 0) min a b)

or_digit : (a b : ℕ) → bit_or a b ≡ bit_or (a / 2) (b / 2) * 2 + max (a % 2) (b % 2)
or_digit zero b = simp bit_or-bitwise (omega arith)
or_digit (suc a) b = simp bit_or-bitwise (bitwise_digit (λ y. y) max a b)

pub bit-bit_and : (a b i : ℕ) → bit (bit_and a b) i ≡ min (bit a i) (bit b i)
unfolding bit
bit-bit_and a b zero = omega (arith, and_digit a b)
bit-bit_and a b (suc i) =
    ap (λ t. bit t i) (omega (arith, and_digit a b)) ∙ bit-bit_and (a / 2) (b / 2) i

pub bit-bit_or : (a b i : ℕ) → bit (bit_or a b) i ≡ max (bit a i) (bit b i)
unfolding bit
bit-bit_or a b zero = omega (arith, or_digit a b)
bit-bit_or a b (suc i) =
    ap (λ t. bit t i) (omega (arith, or_digit a b)) ∙ bit-bit_or (a / 2) (b / 2) i

bit-suc : (x i : ℕ) → bit (x / 2) i ≡ bit x (suc i)
unfolding bit
bit-suc x i = refl

pow_split : (k : ℕ) → 2 ^ suc k ≡ 2 * 2 ^ k
pow_split k = omega (arith, pow-suc 2 k)

-- A right shift by `k` moves digit `k + i` to place `i`.
pub bit-div : (k x i : ℕ) → bit (x / 2 ^ k) i ≡ bit x (k + i)
bit-div zero x i = ap₂ bit (omega arith) (omega arith)
bit-div (suc k) x i =
    ap (λ t. bit (x / t) i) (pow_split k)
    ∙ ap (λ t. bit t i) (sym (div-div-eq-div-mul x 2 (2 ^ k)))
    ∙ bit-div k (x / 2) i
    ∙ bit-suc x (k + i)
    ∙ ap (bit x) (omega arith)

-- A digit beyond the number is 0.
pub bit-eq_zero : (x i : ℕ) → x < 2 ^ i → bit x i ≡ 0
unfolding bit
bit-eq_zero x i h =
    ap (bit x) (sym (add-zero i)) ∙ sym (bit-div i x 0) ∙ ap (λ (t : ℕ). t % 2) (div-eq_of_lt h)

-- Numbers with the same digits are equal.
bit_ext_below : (n a b : ℕ) → a ≤ n → b ≤ n → ((i : ℕ) → bit a i ≡ bit b i) → a ≡ b
unfolding bit
bit_ext_below zero a b p q same = omega arith
bit_ext_below (suc n) a b p q same =
    omega (
      arith,
      same 0,
      bit_ext_below n (a / 2) (b / 2) (omega arith) (omega arith) (λ i. same (suc i)),
    )

pub bit_ext : (a b : ℕ) → ((i : ℕ) → bit a i ≡ bit b i) → a ≡ b
bit_ext a b same = bit_ext_below (a + b) a b (omega arith) (omega arith) same

-- A single digit is a number whose other digits are 0.
pub bit-of_digit : (d : ℕ) → d < 2 → (i : ℕ) → bit d (suc i) ≡ 0
unfolding bit
bit-of_digit d h i = ap (λ t. bit t i) (omega arith) ∙ bit-zero i

-- A test at every number below `n`, for tables checked by evaluation.
unfoldable pub every_below : ℕ → (ℕ → Bool) → Bool
every_below zero p = true
every_below (suc n) p = p n && every_below n p

pub every_below_sound : (n : ℕ) (p : ℕ → Bool) (x : ℕ) → every_below n p ≡ true → x < n → p x ≡ true
unfolding every_below
every_below_sound zero p x all h = absurd (omega arith)
every_below_sound (suc n) p x all h = ground (arith, every_below_sound n p x)

bit_and-zero : (a : ℕ) → bit_and a 0 ≡ 0
bit_and-zero a = bit_ext _ _ λ i. omega (arith, bit-bit_and a 0 i, bit-zero i)

bit_and-le_below : (n a b : ℕ) → b ≤ n → bit_and a b ≤ b
bit_and-le_below n a zero h = omega (arith, bit_and-zero a)
bit_and-le_below zero a (suc b) h = absurd (omega arith)
bit_and-le_below (suc n) a (suc b) h =
    omega (arith, and_digit a (suc b), bit_and-le_below n (a / 2) (suc b / 2) (omega arith))

-- A mask bounds what it lets through.
pub bit_and-le : (a b : ℕ) → bit_and a b ≤ b
bit_and-le a b = bit_and-le_below b a b (omega arith)

-- `|` does not widen.
pub bit_or-lt : (n a b : ℕ) → a < 2 ^ n → b < 2 ^ n → bit_or a b < 2 ^ n
bit_or-lt zero a b ha hb =
    let ea : a ≡ 0 = omega arith in let eb : b ≡ 0 = omega arith in rw (ea, eb) (omega arith)
bit_or-lt (suc n) a b ha hb = omega (
  arith,
  pow_split n,
  or_digit a b,
  bit_or-lt n (a / 2) (b / 2) (omega (arith, pow_split n)) (omega (arith, pow_split n)),
)

-- The two lowest bits.
pub bit_and-three : (a : ℕ) → bit_and a 3 ≡ a % 4
bit_and-three a = omega (arith, and_digit a 3, and_digit (a / 2) 1, bit_and-zero (a / 2 / 2))

-- A mask of ones, one bit longer.
bit_and-ones : (a ones : ℕ) → bit_and a (2 * ones + 1) ≡ bit_and (a / 2) ones * 2 + a % 2
bit_and-ones a ones =
    let half : (2 * ones + 1) / 2 ≡ ones = omega arith in
    and_digit a (2 * ones + 1)
    ∙ ap (λ r. bit_and (a / 2) r * 2 + min (a % 2) ((2 * ones + 1) % 2)) half
    ∙ omega arith

bit_and-15 : (a : ℕ) → bit_and a 15 ≡ a % 16
bit_and-15 a = omega (arith, bit_and-ones a 7, bit_and-ones (a / 2) 3, bit_and-three (a / 2 / 2))

bit_and-127 : (a : ℕ) → bit_and a 127 ≡ a % 128
bit_and-127 a = omega (
  arith,
  bit_and-ones a 63,
  bit_and-ones (a / 2) 31,
  bit_and-ones (a / 2 / 2) 15,
  bit_and-15 (a / 2 / 2 / 2),
)

-- The nine lowest bits.
pub bit_and-511 : (a : ℕ) → bit_and a 511 ≡ a % 512
bit_and-511 a = omega (arith, bit_and-ones a 255, bit_and-ones (a / 2) 127, bit_and-127 (a / 2 / 2))
