-- ===== src/Pte/Fields.antt =====
-- kernel/vmem.c's entry macros, read back: each bit that a macro sets is the bit that is read,
-- and the address field is kept by the others.
use Prim.Native.Nat.{min}
use skinny_arm.Base.{
  ℕ, zero, suc, ◌+◌, ◌-◌, ◌*◌, ◌/◌, ◌^◌, ◌≤◌, ◌<◌, bit_and, ◌≡◌, refl, ap, ◌∙◌, sym, ◌⊎◌, true,
  arith, ◌==◌, ltb, if◌then◌else◌, ==→eq,
}
use native.Mathlib.Decide.{dec_lt}
use native.Mathlib.Nat.{one-le-pow, div_self, add-zero, pow-le-pow_right}
use skinny_arm.Bits.{
  bit, bit-lt, bit-bit_and, bit-bit_or, bit-div, bit_ext, bit-eq_zero, bit-of_digit, every_below,
  every_below_sound,
}
use skinny_arm.Pte.{
  u64, complement, set_bit, get_bit, phys_mask, set_physical_addr, get_physical_addr,
}

-- The digits of the masks, by evaluation.
mask_table :
    every_below 64
      (λ b. every_below 64 (λ c. bit (complement (2 ^ b)) c == (if b == c then 0 else 1)))
    ≡ true
unfolding every_below bit
mask_table = refl

value_table :
    every_below 2 (λ v.
      every_below 64
        (λ b. every_below 64 (λ c. bit (u64 (v * 2 ^ b)) c == (if b == c then v else 0))))
    ≡ true
unfolding every_below bit
value_table = refl

module _ (x b c v : ℕ) (hb : b < 64) (hc : c < 64) (hv : v < 2) where
  mask_digit : bit (complement (2 ^ b)) c ≡ (if b == c then 0 else 1)
  mask_digit = ==→eq _ _ (every_below_sound 64 _ c (every_below_sound 64 _ b mask_table hb) hc)

  value_digit : bit (u64 (v * 2 ^ b)) c ≡ (if b == c then v else 0)
  value_digit = ==→eq _ _ (
      every_below_sound 64 _ c
        (every_below_sound 64 _ b (every_below_sound 2 _ v value_table hv) hb) hc)

  -- `SET_BIT` writes one digit and leaves the others.
  pub bit-set_bit : bit (set_bit x b v) c ≡ (if b == c then v else bit x c)
  unfolding set_bit
  bit-set_bit = ground (
    arith,
    bit-bit_or (bit_and x (complement (2 ^ b))) (u64 (v * 2 ^ b)) c,
    bit-bit_and x (complement (2 ^ b)) c,
    mask_digit,
    value_digit,
    bit-lt x c,
  )

-- `GET_BIT` reads one digit.
get_bit_digit : (x b i : ℕ) → bit (get_bit x b) i ≡ min (bit x (b + i)) (bit 1 i)
unfolding get_bit
get_bit_digit x b i =
    bit-div b (bit_and x (2 ^ b)) i
    ∙ bit-bit_and x (2 ^ b) (b + i)
    ∙ ap (min (bit x (b + i))) (sym (bit-div b (2 ^ b) i) ∙ ap (λ t. bit t i) (power_itself b))
  where
    power_itself : (k : ℕ) → 2 ^ k / 2 ^ k ≡ 1
    power_itself k = div_self (one-le-pow k 2 (omega arith))

get_bit-at_zero : (x b : ℕ) → bit (get_bit x b) 0 ≡ bit (bit x b) 0
unfolding bit
get_bit-at_zero x b = omega (arith, get_bit_digit x b 0, ap (bit x) (add-zero b), bit-lt x b)

get_bit-at_suc : (x b i : ℕ) → bit (get_bit x b) (suc i) ≡ bit (bit x b) (suc i)
get_bit-at_suc x b i = omega (
  arith,
  get_bit_digit x b (suc i),
  bit-of_digit 1 (omega arith) i,
  bit-of_digit (bit x b) (bit-lt x b) i,
)

pub get_bit-eq-bit : (x b : ℕ) → get_bit x b ≡ bit x b
get_bit-eq-bit x b = bit_ext _ _ same
  where
    same : (i : ℕ) → bit (get_bit x b) i ≡ bit (bit x b) i
    same zero = get_bit-at_zero x b
    same (suc i) = get_bit-at_suc x b i

field_mask_table : every_below 36 (λ i. bit phys_mask (12 + i) == 1) ≡ true
unfolding every_below bit
field_mask_table = refl

field_mask_above : (i : ℕ) → 36 ≤ i → bit phys_mask (12 + i) ≡ 0
field_mask_above i h =
    sym (bit-div 12 phys_mask i)
    ∙ bit-eq_zero (2 ^ 36 - 1) i (omega (arith, pow-le-pow_right {n = 2} (omega arith) h))

field_mask_digit : (i : ℕ) → bit phys_mask (12 + i) ≡ (if ltb i 36 then 1 else 0)
field_mask_digit i = elim (dec_lt i 36) [
  | yes h ↦ ground (arith, ==→eq _ _ (every_below_sound 36 _ i field_mask_table h))
  | no h ↦ ground (arith, field_mask_above i (omega arith))
]

-- `GET_PHYSICAL_ADDR` reads the digits 12 to 47.
get_physical_addr_digit :
    (x i : ℕ) → bit (get_physical_addr x) i ≡ (if ltb i 36 then bit x (12 + i) else 0)
unfolding get_physical_addr
get_physical_addr_digit x i = ground (
  arith,
  bit-div 12 (bit_and x phys_mask) i,
  bit-bit_and x phys_mask (12 + i),
  field_mask_digit i,
  bit-lt x (12 + i),
)

-- A digit outside the address field can be set without moving the address.
pub get_physical_addr-set_bit :
    (x b v : ℕ)
    → b < 64
    → v < 2
    → (b < 12) ⊎ (48 ≤ b)
    → get_physical_addr (set_bit x b v) ≡ get_physical_addr x
get_physical_addr-set_bit x b v hb hv out = bit_ext _ _ λ i. ground (
  arith,
  get_physical_addr_digit (set_bit x b v) i,
  get_physical_addr_digit x i,
  bit-set_bit x b (12 + i) v hb,
)

inverted_table : every_below 36 (λ i. bit (complement phys_mask) (12 + i) == 0) ≡ true
unfolding every_below bit
inverted_table = refl

inverted_digit : (i : ℕ) → i < 36 → bit (complement phys_mask) (12 + i) ≡ 0
inverted_digit i h = ==→eq _ _ (every_below_sound 36 _ i inverted_table h)

-- An address of at most 36 bits is read back as it was put in.
pub get_physical_addr-set_physical_addr :
    (x p : ℕ) → p < 2 ^ 36 → get_physical_addr (set_physical_addr x p) ≡ p
unfolding set_physical_addr
get_physical_addr-set_physical_addr x p h = bit_ext _ _ λ i. elim (dec_lt i 36) [
  | yes low ↦ ground (
    arith,
    get_physical_addr_digit (set_physical_addr x p) i,
    bit-bit_or (bit_and x (complement phys_mask)) (bit_and (u64 (p * 2 ^ 12)) phys_mask) (12 + i),
    bit-bit_and x (complement phys_mask) (12 + i),
    bit-bit_and (u64 (p * 2 ^ 12)) phys_mask (12 + i),
    inverted_digit i low,
    field_mask_digit i,
    shifted i,
    bit-lt p i,
  )
  | no high ↦ ground (
    arith,
    get_physical_addr_digit (set_physical_addr x p) i,
    bit-eq_zero p i
        (omega (arith, pow-le-pow_right {n = 2} (omega arith) {i = 36} {j = i} (omega arith))),
  )
]
  where
    shifted : (i : ℕ) → bit (u64 (p * 2 ^ 12)) (12 + i) ≡ bit p i
    shifted i = sym (bit-div 12 (u64 (p * 2 ^ 12)) i) ∙ ap (λ t. bit t i) (omega arith)
