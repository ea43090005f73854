-- ===== src/Pte.antt =====
-- kernel/vmem.c, lines 17 to 80: the macros that take a virtual address apart and build the 64-bit
-- entries of a page table. `x >> k` is `x / 2 ^ k`, `x << k` is `x * 2 ^ k` cut to 64 bits,
-- `~ x` is `2 ^ 64 - 1 - x`.
pub mod Fields
pub mod Entries
use skinny_arm.Base.{ℕ, ◌+◌, ◌-◌, ◌*◌, ◌/◌, ◌%◌, ◌^◌, bit_and, bit_or, ◌≡◌, refl, ap, arith}

abbrev pub u64 : ℕ → ℕ
u64 x = x % 2 ^ 64

-- `~ x` at 64 bits
abbrev pub complement : ℕ → ℕ
complement x = 2 ^ 64 - 1 - x

-- `LVL_ADDR(addr, level)`
unfoldable pub lvl_addr : ℕ → ℕ → ℕ
lvl_addr addr level = bit_and (addr / 2 ^ (39 - level * 9)) 0x1ff

-- `SET_BIT(addr, bit, val)`
unfoldable pub set_bit : ℕ → ℕ → ℕ → ℕ
set_bit addr place val = bit_or (bit_and addr (complement (2 ^ place))) (u64 (val * 2 ^ place))

-- `GET_BIT(addr, bit)`
unfoldable pub get_bit : ℕ → ℕ → ℕ
get_bit addr place = bit_and addr (2 ^ place) / 2 ^ place

abbrev pub set_u_non_exec : ℕ → ℕ
set_u_non_exec addr = set_bit addr 54 0

abbrev pub set_u_exec : ℕ → ℕ
set_u_exec addr = set_bit addr 54 1

abbrev pub set_k_non_exec : ℕ → ℕ
set_k_non_exec addr = set_bit addr 53 0

abbrev pub set_k_exec : ℕ → ℕ
set_k_exec addr = set_bit addr 53 1

abbrev pub phys_mask : ℕ
phys_mask = 0x0000fffffffff000

-- `SET_PHYSICAL_ADDR(addr, phys_addr)`
unfoldable pub set_physical_addr : ℕ → ℕ → ℕ
set_physical_addr addr phys_addr =
    bit_or (bit_and addr (complement phys_mask)) (bit_and (u64 (phys_addr * 2 ^ 12)) phys_mask)

-- `GET_PHYSICAL_ADDR(addr)`
unfoldable pub get_physical_addr : ℕ → ℕ
get_physical_addr addr = bit_and addr phys_mask / 2 ^ 12

abbrev pub set_page_set : ℕ → ℕ
set_page_set addr = set_bit addr 10 1

abbrev pub set_page_not_set : ℕ → ℕ
set_page_not_set addr = set_bit addr 10 0

-- `GET_PAGE_SET(addr)`
abbrev pub get_page_set : ℕ → ℕ
get_page_set addr = get_bit addr 10

abbrev pub set_rw : ℕ → ℕ
set_rw addr = set_bit addr 7 0

abbrev pub set_kacces : ℕ → ℕ
set_kacces addr = set_bit addr 6 0

abbrev pub set_kuacces : ℕ → ℕ
set_kuacces addr = set_bit addr 6 1

-- `SET_MAIR(addr, index)`
abbrev pub set_mair : ℕ → ℕ → ℕ
set_mair addr index =
    set_bit (set_bit (set_bit addr 4 (bit_and 1 (index / 2 ^ 2))) 3 (bit_and 1 (index / 2 ^ 1))) 2
      (bit_and 1 index)

abbrev pub set_next_level_page : ℕ → ℕ
set_next_level_page addr = set_bit (set_bit addr 1 0) 0 1

abbrev pub set_next_level_invalid : ℕ → ℕ
set_next_level_invalid addr = set_bit (set_bit addr 1 0) 0 0

-- `PGDPUD_ENTRY(addr, phys_addr)`
unfoldable pub pgdpud_entry : ℕ → ℕ → ℕ
pgdpud_entry addr phys_addr =
    set_k_non_exec
      (set_page_set (set_u_non_exec (set_next_level_page (set_physical_addr addr phys_addr))))

-- `PMD_ENTRY(addr, phys_addr)`
unfoldable pub pmd_entry : ℕ → ℕ → ℕ
pmd_entry addr phys_addr =
    set_k_non_exec
      (set_page_set (set_u_non_exec (set_next_level_page (set_physical_addr addr phys_addr))))

-- `KERNEL_ENTRY(addr, phys_addr)`
unfoldable pub kernel_entry : ℕ → ℕ → ℕ
kernel_entry addr phys_addr = set_k_exec (
    set_u_non_exec (
      set_page_set
        (set_kacces (set_mair (set_next_level_invalid (set_physical_addr addr phys_addr)) 1))))

-- `DEVICE_ENTRY(addr, phys_addr)`
unfoldable pub device_entry : ℕ → ℕ → ℕ
device_entry addr phys_addr = set_k_exec (
    set_u_non_exec (
      set_page_set (
        set_rw
          (set_kacces (set_mair (set_next_level_invalid (set_physical_addr addr phys_addr)) 0)))))

-- `USER_ENTRY(addr, phys_addr)`
unfoldable pub user_entry : ℕ → ℕ → ℕ
user_entry addr phys_addr = set_k_exec (
    set_u_exec (
      set_page_set (
        set_rw
          (set_kuacces (set_mair (set_next_level_invalid (set_physical_addr addr phys_addr)) 1)))))

-- `INVALID_ENTRY(addr)`
unfoldable pub invalid_entry : ℕ → ℕ
invalid_entry addr = set_page_not_set (set_physical_addr addr 0)
