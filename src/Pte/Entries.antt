-- ===== src/Pte/Entries.antt =====
-- The five entries that kernel/vmem.c builds, field by field.
use skinny_arm.Base.{
  ℕ, ◌+◌, ◌*◌, ◌^◌, ◌≤◌, ◌<◌, ◌≡◌, ◌⊎◌, refl, ap, ◌∙◌, List, [], ◌∷◌, All, All-map, bit_and, arith,
  ◌==◌, if◌then◌else◌,
}
use skinny_arm.Bits.{bit, bit-lt, bit-zero, bit-bit_and, bit-bit_or}
use skinny_arm.Pte.{pgdpud_entry, pmd_entry, kernel_entry, device_entry, user_entry}
use skinny_arm.Pte.{
  u64, complement, phys_mask, set_bit, get_page_set, get_physical_addr, set_physical_addr,
}
use skinny_arm.Pte.Fields.{
  bit-set_bit, get_bit-eq-bit, get_physical_addr-set_bit, get_physical_addr-set_physical_addr,
}

-- What the comments of kernel/vmem.c (lines 35 to 63) call the fields of an entry.
pub record Attributes : Type 0 where
  pub user_no_exec : ℕ  -- bit 54
  pub kernel_no_exec : ℕ  -- bit 53
  pub page_set : ℕ  -- bit 10
  pub read_only : ℕ  -- bit 7
  pub user_access : ℕ  -- bit 6
  pub mair : ℕ  -- bits 4 to 2
  pub next_level : ℕ  -- bits 1 and 0
  pub address : ℕ  -- bits 47 to 12

unfoldable pub attributes : ℕ → Attributes
attributes w = record {
  user_no_exec = bit w 54;
  kernel_no_exec = bit w 53;
  page_set = get_page_set w;
  read_only = bit w 7;
  user_access = bit w 6;
  mair = bit w 4 * 4 + bit w 3 * 2 + bit w 2;
  next_level = bit w 1 * 2 + bit w 0;
  address = get_physical_addr w;
}

-- A nest of `SET_BIT`s, the outermost first.
abbrev set_bits : ℕ → List (ℕ × ℕ) → ℕ
set_bits x [] = x
set_bits x ((b, v) ∷ ws) = set_bit (set_bits x ws) b v

abbrev last_written : List (ℕ × ℕ) → ℕ → ℕ → ℕ
last_written [] c d = d
last_written ((b, v) ∷ ws) c d = if b == c then v else last_written ws c d

abbrev IsWrite : ℕ × ℕ → Type 0
IsWrite (b, v) = (b < 64) × (v < 2)

abbrev IsOutside : ℕ × ℕ → Type 0
IsOutside (b, v) = (b < 64) × (v < 2) × ((b < 12) ⊎ (48 ≤ b))

bit-set_bits :
    (x c : ℕ) (ws : List (ℕ × ℕ))
    → c < 64
    → All IsWrite ws
    → bit (set_bits x ws) c ≡ last_written ws c (bit x c)
bit-set_bits x c [] hc ok = refl
bit-set_bits x c ((b, v) ∷ ws) hc ok =
    ground (arith, bit-set_bit (set_bits x ws) b c v ok.0.0 hc ok.0.1, bit-set_bits x c ws hc ok.1)

address-set_bits :
    (x p : ℕ) (ws : List (ℕ × ℕ))
    → p < 2 ^ 36
    → All IsOutside ws
    → get_physical_addr (set_bits (set_physical_addr x p) ws) ≡ p
address-set_bits x p [] hp ok = get_physical_addr-set_physical_addr x p hp
address-set_bits x p ((b, v) ∷ ws) hp ok =
    get_physical_addr-set_bit _ b v ok.0.0 ok.0.1 ok.0.2 ∙ address-set_bits x p ws hp ok.1

-- A digit that the address field does not hold.
abbrev IsOutsideField : ℕ → Type 0
IsOutsideField c = (bit phys_mask c ≡ 0) × (bit (complement phys_mask) c ≡ 1)

bit-set_physical_addr : (x p c : ℕ) → IsOutsideField c → bit (set_physical_addr x p) c ≡ bit x c
unfolding set_physical_addr
bit-set_physical_addr x p c out = omega (
  arith,
  bit-bit_or (bit_and x (complement phys_mask)) (bit_and (u64 (p * 2 ^ 12)) phys_mask) c,
  bit-bit_and x (complement phys_mask) c,
  bit-bit_and (u64 (p * 2 ^ 12)) phys_mask c,
  bit-lt x c,
  bit-lt (u64 (p * 2 ^ 12)) c,
)

All-IsWrite : (ws : List (ℕ × ℕ)) → All IsOutside ws → All IsWrite ws
All-IsWrite ws = All-map ws (λ _ o. (o.0, o.1))

-- The attributes of an entry built from 0 by a nest of writes.
abbrev written : ℕ → List (ℕ × ℕ) → Attributes
written p ws = record {
  user_no_exec = last_written ws 54 0;
  kernel_no_exec = last_written ws 53 0;
  page_set = last_written ws 10 0;
  read_only = last_written ws 7 0;
  user_access = last_written ws 6 0;
  mair = last_written ws 4 0 * 4 + last_written ws 3 0 * 2 + last_written ws 2 0;
  next_level = last_written ws 1 0 * 2 + last_written ws 0 0;
  address = p;
}

module _ (p : ℕ) (hp : p < 2 ^ 36) (ws : List (ℕ × ℕ)) (ok : All IsOutside ws) where
  abbrev entry : ℕ
  entry = set_bits (set_physical_addr 0 p) ws

  bit-entry : (c : ℕ) → c < 64 → IsOutsideField c → bit entry c ≡ last_written ws c 0
  bit-entry c hc out =
      bit-set_bits (set_physical_addr 0 p) c ws hc (All-IsWrite ws ok)
      ∙ ap (last_written ws c) (bit-set_physical_addr 0 p c out ∙ bit-zero c)

  attributes-entry : attributes entry ≡ written p ws
  unfolding attributes bit
  attributes-entry = ground (
    arith,
    bit-entry 54 (omega arith) (refl, refl),
    bit-entry 53 (omega arith) (refl, refl),
    get_bit-eq-bit entry 10 ∙ bit-entry 10 (omega arith) (refl, refl),
    bit-entry 7 (omega arith) (refl, refl),
    bit-entry 6 (omega arith) (refl, refl),
    bit-entry 4 (omega arith) (refl, refl),
    bit-entry 3 (omega arith) (refl, refl),
    bit-entry 2 (omega arith) (refl, refl),
    bit-entry 1 (omega arith) (refl, refl),
    bit-entry 0 (omega arith) (refl, refl),
    address-set_bits 0 p ws hp ok,
  )

abbrev table_writes : List (ℕ × ℕ)
table_writes = (53, 0) ∷ (10, 1) ∷ (54, 0) ∷ (0, 1) ∷ (1, 0) ∷ []

abbrev kernel_writes : List (ℕ × ℕ)
kernel_writes =
    (53, 1) ∷ (54, 0) ∷ (10, 1) ∷ (6, 0) ∷ (2, 1) ∷ (3, 0) ∷ (4, 0) ∷ (0, 0) ∷ (1, 0) ∷ []

abbrev device_writes : List (ℕ × ℕ)
device_writes =
    (53, 1) ∷ (54, 0) ∷ (10, 1) ∷ (7, 0) ∷ (6, 0) ∷ (2, 0) ∷ (3, 0) ∷ (4, 0) ∷ (0, 0) ∷ (1, 0) ∷ []

abbrev user_writes : List (ℕ × ℕ)
user_writes =
    (53, 1) ∷ (54, 1) ∷ (10, 1) ∷ (7, 0) ∷ (6, 1) ∷ (2, 1) ∷ (3, 0) ∷ (4, 0) ∷ (0, 0) ∷ (1, 0) ∷ []

-- An entry for a next-level table, built over 0 for an address below `2 ^ 36`, decodes as: page
-- set, executable by user and kernel, next level 01, all else 0, and the address unchanged.
-- `PGDPUD_ENTRY` and `PMD_ENTRY` agree on it.
pub table_entry_attributes :
    (p : ℕ)
    → p < 2 ^ 36
    → (attributes (pgdpud_entry 0 p) ≡ record {
      user_no_exec = 0;
      kernel_no_exec = 0;
      page_set = 1;
      read_only = 0;
      user_access = 0;
      mair = 0;
      next_level = 1;
      address = p;
    })
      × (attributes (pmd_entry 0 p) ≡ attributes (pgdpud_entry 0 p))
unfolding pgdpud_entry pmd_entry
table_entry_attributes p hp = (attributes-entry p hp table_writes (omega arith), refl)

-- The entries for a page, built over 0 for an address below `2 ^ 36`, decode as: page set, next
-- level 00, the address unchanged, and
-- kernel: no execution by the kernel, no user access, MAIR index 1;
-- device: no execution by the kernel, writable, no user access, MAIR index 0;
-- user: no execution by user or kernel, writable, user access, MAIR index 1.
pub page_entry_attributes :
    (p : ℕ)
    → p < 2 ^ 36
    → (attributes (kernel_entry 0 p) ≡ record {
      user_no_exec = 0;
      kernel_no_exec = 1;
      page_set = 1;
      read_only = 0;
      user_access = 0;
      mair = 1;
      next_level = 0;
      address = p;
    })
      × (attributes (device_entry 0 p) ≡ record {
        user_no_exec = 0;
        kernel_no_exec = 1;
        page_set = 1;
        read_only = 0;
        user_access = 0;
        mair = 0;
        next_level = 0;
        address = p;
      })
      × (attributes (user_entry 0 p) ≡ record {
        user_no_exec = 1;
        kernel_no_exec = 1;
        page_set = 1;
        read_only = 0;
        user_access = 1;
        mair = 1;
        next_level = 0;
        address = p;
      })
unfolding kernel_entry device_entry user_entry
page_entry_attributes p hp = (
  attributes-entry p hp kernel_writes (omega arith),
  attributes-entry p hp device_writes (omega arith),
  attributes-entry p hp user_writes (omega arith),
)
