-- ===== src/Rootfs/Ramfs/Word.antt =====
-- The 32-bit words that kernel/rootfs.c stores and reads.
use skinny_arm.Base.{ℕ, ◌+◌, ◌-◌, ◌/◌, ◌%◌, ◌^◌, ◌≤◌, ◌<◌, ◌≡◌, ap, ◌∙◌, false, [], ◌∷◌, arith}
use skinny_arm.Memory.{Mem, within}
use skinny_arm.Rootfs.{load32}
use skinny_arm.Rootfs.Header.{Holds}
use skinny_arm.Rootfs.Ramfs.{store32}

pub store32-outside : (m : Mem) (a v x : ℕ) → within a 4 x ≡ false → store32 m a v x ≡ m x
unfolding store32
store32-outside m a v x h = ground arith

store32-byte : (m : Mem) (a v k : ℕ) → k < 4 → store32 m a v (a + k) ≡ v / 256 ^ k % 256
unfolding store32
store32-byte m a v k h =
    let e : a + k - a ≡ k = omega arith in ground (arith, ap (λ d. v / 256 ^ d % 256) e)

-- The four bytes of a number below `2 ^ 32`.
pub store32-Holds :
    (m : Mem) (a v : ℕ)
    → Holds (store32 m a v) a (v % 256 ∷ v / 256 % 256 ∷ v / 65536 % 256 ∷ v / 16777216 % 256 ∷ [])
store32-Holds m a v = (
  ap (store32 m a v) (omega arith) ∙ store32-byte m a v 0 (omega arith) ∙ omega arith,
  (
    ap (store32 m a v) (omega arith) ∙ store32-byte m a v 1 (omega arith),
    (
      ap (store32 m a v) (omega arith) ∙ store32-byte m a v 2 (omega arith),
      (ap (store32 m a v) (omega arith) ∙ store32-byte m a v 3 (omega arith), tt),
    ),
  ),
)

pub load32-store32_self : (m : Mem) (a v : ℕ) → v < 2 ^ 32 → load32 (store32 m a v) a ≡ v
unfolding load32
load32-store32_self m a v h =
    let b = store32-Holds m a v in
    omega (
      arith,
      b.0,
      store32-byte m a v 1 (omega arith),
      store32-byte m a v 2 (omega arith),
      store32-byte m a v 3 (omega arith),
    )

pub load32_ext :
    (m n : Mem) (a : ℕ) → ((x : ℕ) → a ≤ x → x < a + 4 → n x ≡ m x) → load32 n a ≡ load32 m a
unfolding load32
load32_ext m n a same = omega (
  arith,
  same a (omega arith) (omega arith),
  same (a + 1) (omega arith) (omega arith),
  same (a + 2) (omega arith) (omega arith),
  same (a + 3) (omega arith) (omega arith),
)
