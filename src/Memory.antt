-- ===== src/Memory.antt =====
-- Byte-addressed physical memory and the word accesses of the kernel's C code (little-endian, as
-- AArch64 under kernel/boot.S). Every address can be read and written: the kernel runs on flat
-- physical memory, where address 0 is ordinary RAM.
use native.Mathlib.Nat.{add-zero, zero-div}
use skinny_arm.Base.{
  ℕ, ◌+◌, ◌-◌, ◌*◌, ◌/◌, ◌%◌, ◌^◌, ◌≤◌, ◌<◌, ◌≡◌, ◌⊎◌, sym, ap, ◌∙◌, ◌&&◌, Bool, true, false, arith,
  ◌==◌, ltb, leb, if◌then◌else◌,
}

abbrev pub Mem : Type 0
Mem = ℕ → ℕ

-- `*(uint8_t *)a = v`
unfoldable pub store8 : Mem → ℕ → ℕ → Mem
store8 m a v x = if x == a then v % 256 else m x

-- The 64-bit word at `a`.
unfoldable pub load64 : Mem → ℕ → ℕ
load64 m a =
    m a
    + 2 ^ 8 * m (a + 1)
    + 2 ^ 16 * m (a + 2)
    + 2 ^ 24 * m (a + 3)
    + 2 ^ 32 * m (a + 4)
    + 2 ^ 40 * m (a + 5)
    + 2 ^ 48 * m (a + 6)
    + 2 ^ 56 * m (a + 7)

-- `x` is one of the `n` addresses from `a` on.
abbrev pub within : ℕ → ℕ → ℕ → Bool
within a n x = leb a x && ltb x (a + n)

-- `*(uint64_t *)a = v`
unfoldable pub store64 : Mem → ℕ → ℕ → Mem
store64 m a v x = if within a 8 x then v / 256 ^ (x - a) % 256 else m x

pub store64-outside : (m : Mem) (a v x : ℕ) → within a 8 x ≡ false → store64 m a v x ≡ m x
unfolding store64
store64-outside m a v x h = ground arith

-- A word depends on its eight bytes only.
pub load64_ext :
    (m n : Mem) (a : ℕ) → ((x : ℕ) → a ≤ x → x < a + 8 → m x ≡ n x) → load64 m a ≡ load64 n a
unfolding load64
load64_ext m n a same = omega (
  arith,
  same a (omega arith) (omega arith),
  same (a + 1) (omega arith) (omega arith),
  same (a + 2) (omega arith) (omega arith),
  same (a + 3) (omega arith) (omega arith),
  same (a + 4) (omega arith) (omega arith),
  same (a + 5) (omega arith) (omega arith),
  same (a + 6) (omega arith) (omega arith),
  same (a + 7) (omega arith) (omega arith),
)

store64-at : (m : Mem) (a v i : ℕ) → i < 8 → store64 m a v (a + i) ≡ v / 256 ^ i % 256
unfolding store64
store64-at m a v i h =
    ap (λ b. if b then v / 256 ^ (a + i - a) % 256 else m (a + i)) inside
    ∙ ap (λ j. v / 256 ^ j % 256) (omega arith)
  where
    inside : within a 8 (a + i) ≡ true
    inside = ground arith

pub load64-store64_self : (m : Mem) (a v : ℕ) → v < 2 ^ 64 → load64 (store64 m a v) a ≡ v
unfolding load64
load64-store64_self m a v h = omega (
  arith,
  ap (store64 m a v) (sym (add-zero a)) ∙ store64-at m a v 0 (omega arith),
  store64-at m a v 1 (omega arith),
  store64-at m a v 2 (omega arith),
  store64-at m a v 3 (omega arith),
  store64-at m a v 4 (omega arith),
  store64-at m a v 5 (omega arith),
  store64-at m a v 6 (omega arith),
  store64-at m a v 7 (omega arith),
)

pub load64-store64_ne :
    (m : Mem) (a b v : ℕ) → (a + 8 ≤ b) ⊎ (b + 8 ≤ a) → load64 (store64 m a v) b ≡ load64 m b
load64-store64_ne m a b v apart = load64_ext _ _ b λ x lo hi. store64-outside m a v x (ground arith)

-- A word of zero bytes is 0.
pub load64-of_zero : (m : Mem) (a : ℕ) → ((x : ℕ) → a ≤ x → x < a + 8 → m x ≡ 0) → load64 m a ≡ 0
unfolding load64
load64-of_zero m a zeros = load64_ext m (λ _. 0) a zeros

pub store64-zero : (m : Mem) (a x : ℕ) → within a 8 x ≡ true → store64 m a 0 x ≡ 0
unfolding store64
store64-zero m a x h = ground (arith, zero-div (256 ^ (x - a)))
