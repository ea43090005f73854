-- ===== src/Rootfs/Hex.antt =====
-- The hexadecimal numbers of kernel/rootfs.c, read by `int_from_char` and `int_from_string`.
use skinny_arm.Base.{
  ℕ, zero, suc, ◌+◌, ◌-◌, ◌*◌, ◌/◌, ◌%◌, ◌^◌, ◌<◌, ◌≡◌, ◌≢◌, refl, sym, ap, ap₂, ◌∙◌, subst, Bool,
  true, false, ◌&&◌, ◌||◌, inl, inr, Bool-cases, arith, ltb, leb, ◌==◌, ==→eq, ==→ne, ne→==,
  if◌then◌else◌,
}
use skinny_arm.Bits.{every_below, every_below_sound}
use skinny_arm.Memory.{Mem}
use skinny_arm.Rootfs.{minus_one, int_from_char, number_loop, int_from_string}

-- The digit of `d`, for `d` below 16.
abbrev pub hex_char : ℕ → ℕ
hex_char d = if ltb d 10 then 48 + d else 55 + d

-- A decimal digit or a capital letter from A to F.
abbrev pub is_hex : ℕ → Bool
is_hex c = leb 48 c && leb c 57 || leb 65 c && leb c 70

-- `n` digits at `s` that print `v`, the last digit being the least.
abbrev pub IsPrinted : Mem → (s n v : ℕ) → Type 0
IsPrinted m s zero v = v ≡ 0
IsPrinted m s (suc n) v = IsPrinted m s n (v / 16) × (m (s + n) ≡ hex_char (v % 16))

every_digit : every_below 16 (λ d. int_from_char (hex_char d) == d) ≡ true
unfolding every_below int_from_char
every_digit = refl

int_from_char-hex_char : (d : ℕ) → d < 16 → int_from_char (hex_char d) ≡ d
int_from_char-hex_char d h =
    ==→eq (int_from_char (hex_char d)) d
      (every_below_sound 16 (λ d. int_from_char (hex_char d) == d) d every_digit h)

int_from_char-invalid : (c : ℕ) → is_hex c ≡ false → int_from_char c ≡ minus_one
unfolding int_from_char
int_from_char-invalid c h = ground arith

int_from_char-lt : (c : ℕ) → int_from_char c < 2 ^ 64
unfolding int_from_char
int_from_char-lt c = ground arith

-- The first `n` bytes at `s` are digits.
abbrev Digits : Mem → (s n : ℕ) → Type 0
Digits m s n = (i : ℕ) → i < n → int_from_char (m (s + i)) ≢ minus_one

at_start : (m : Mem) (s : ℕ) → m (s + 0) ≡ m s
at_start m s = ap m (omega arith)

head-Digit : (m : Mem) (s n : ℕ) → Digits m s (suc n) → (int_from_char (m s) == minus_one) ≡ false
head-Digit m s n digits = ground (arith, at_start m s, digits 0)

tail-Digits : (m : Mem) (s n : ℕ) → Digits m s (suc n) → Digits m (s + 1) n
tail-Digits m s n digits i h =
    subst (λ x. int_from_char (m x) ≢ minus_one) (omega arith) (digits (i + 1) (omega arith))

-- The last round of the loop, where the others stand first.
number_loop-snoc :
    (n s t : ℕ) (m : Mem)
    → Digits m s (suc n)
    → number_loop (suc n) s t m ≡ (number_loop n s t m * 16 + int_from_char (m (s + n))) % 2 ^ 64
unfolding number_loop
number_loop-snoc zero s t m digits =
    rw (head-Digit m s 0 digits)
      (ap (λ c. (t * 16 + int_from_char c) % 2 ^ 64) (sym (at_start m s)))
number_loop-snoc (suc n) s t m digits = rw (head-Digit m s (suc n) digits) (
    number_loop-snoc n (s + 1) ((t * 16 + int_from_char (m s)) % 2 ^ 64) m
      (tail-Digits m s (suc n) digits)
    ∙ ap
        (λ x.
          (number_loop n (s + 1) ((t * 16 + int_from_char (m s)) % 2 ^ 64) m * 16
            + int_from_char (m x))
          % 2 ^ 64)
        (omega arith))

IsPrinted-Digits : (m : Mem) (s n v : ℕ) → IsPrinted m s n v → Digits m s n
IsPrinted-Digits m s zero v is i h = absurd (omega arith)
IsPrinted-Digits m s (suc n) v is i h = elim (Bool-cases (i == n)) [
  | inl same ↦
      let e : int_from_char (m (s + i)) ≡ v % 16 =
        ap (λ j. int_from_char (m (s + j))) (==→eq i n same)
        ∙ ap int_from_char is.1
        ∙ int_from_char-hex_char (v % 16) (omega arith) in
      omega arith
  | inr other ↦ IsPrinted-Digits m s n (v / 16) is.0 i (omega (arith, ==→ne i n other))
]

number_loop-IsPrinted :
    (n s v : ℕ) (m : Mem) → v < 2 ^ 64 → IsPrinted m s n v → number_loop n s 0 m ≡ v
unfolding number_loop
number_loop-IsPrinted zero s v m small is = sym is
number_loop-IsPrinted (suc n) s v m small is =
    let e : int_from_char (m (s + n)) ≡ v % 16 =
      ap int_from_char is.1 ∙ int_from_char-hex_char (v % 16) (omega arith) in
    let ih = number_loop-IsPrinted n s (v / 16) m (omega arith) is.0 in
    let snoc = number_loop-snoc n s 0 m (IsPrinted-Digits m s (suc n) v is) in
    snoc ∙ ap₂ (λ x y. (x * 16 + y) % 2 ^ 64) ih e ∙ omega arith

int_from_string-eq-number_loop :
    (string size : ℕ) (m : Mem) → int_from_string string size m ≡ number_loop size string 0 m
unfolding int_from_string number_loop
int_from_string-eq-number_loop s zero m = refl
int_from_string-eq-number_loop s (suc n) m =
    let e : (0 * 16 + int_from_char (m s)) % 2 ^ 64 ≡ int_from_char (m s) =
      omega (arith, int_from_char-lt (m s)) in
    let less : suc n - 1 ≡ n = omega arith in
    rw (e, less, ne→== (suc n) 0 (omega arith))
      (elim (Bool-cases (int_from_char (m s) == minus_one)) [
        | inl bad ↦ rw bad (sym (==→eq (int_from_char (m s)) minus_one bad))
        | inr good ↦ rw good
      ])

-- A 64-bit number that is printed in `size` hexadecimal digits, with capital letters and leading
-- zeros, is what `int_from_string` returns for them.
pub int_from_string-IsPrinted :
    (string size v : ℕ) (m : Mem)
    → v < 2 ^ 64
    → IsPrinted m string size v
    → int_from_string string size m ≡ v
int_from_string-IsPrinted s n v m small is =
    int_from_string-eq-number_loop s n m ∙ number_loop-IsPrinted n s v m small is

number_loop-invalid :
    (n s t i : ℕ) (m : Mem)
    → i < n
    → int_from_char (m (s + i)) ≡ minus_one
    → number_loop n s t m ≡ minus_one
unfolding number_loop
number_loop-invalid zero s t i m h bad = absurd (omega arith)
number_loop-invalid (suc n) s t zero m h bad = ground (arith, at_start m s, bad)
number_loop-invalid (suc n) s t (suc i) m h bad =
    let rest =
      number_loop-invalid n (s + 1) ((t * 16 + int_from_char (m s)) % 2 ^ 64) i m (omega arith)
        (ap (λ x. int_from_char (m x)) (omega arith) ∙ bad) in
    ground (arith, rest)

-- If any of the `size` bytes is no hexadecimal digit, small letters included, `int_from_string`
-- returns -1.
int_from_string-invalid :
    (string size i : ℕ) (m : Mem)
    → i < size
    → is_hex (m (string + i)) ≡ false
    → int_from_string string size m ≡ minus_one
int_from_string-invalid s n i m h bad =
    int_from_string-eq-number_loop s n m
    ∙ number_loop-invalid n s 0 i m h (int_from_char-invalid (m (s + i)) bad)
