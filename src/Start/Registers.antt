-- ===== src/Start/Registers.antt =====
-- kernel/memory_map.h, lines 49 to 138: the registers of the devices, in the order of the file. Those of one list
-- are offsets from MMIO_BASE.
use skinny_arm.Base.{ℕ, ◌+◌, ◌*◌, List, [], ◌∷◌, ◌++◌}

-- The mini UART
abbrev pub serial_registers : List ℕ
serial_registers =
    0x215000 ∷ 0x215004 ∷ 0x215040 ∷ 0x215044 ∷ 0x215048 ∷ 0x21504c ∷ 0x215050 ∷ 0x215054 ∷ 0x215058
    ∷ 0x21505c ∷ 0x215060 ∷ 0x215064 ∷ 0x215068 ∷ []

-- The pins
abbrev pub gpio_registers : List ℕ
gpio_registers =
    0x200000 ∷ 0x200004 ∷ 0x200008 ∷ 0x20000c ∷ 0x200010 ∷ 0x200014 ∷ 0x20001c ∷ 0x200020 ∷ 0x200028
    ∷ 0x200034 ∷ 0x200038 ∷ 0x200040 ∷ 0x200044 ∷ 0x200064 ∷ 0x200068 ∷ 0x200094 ∷ 0x200098
    ∷ 0x20009c ∷ []

-- The interrupt controller
abbrev pub irq_registers : List ℕ
irq_registers =
    0xb200 ∷ 0xb204 ∷ 0xb208 ∷ 0xb20c ∷ 0xb210 ∷ 0xb214 ∷ 0xb218 ∷ 0xb21c ∷ 0xb220 ∷ 0xb224 ∷ []

-- The random number generator
abbrev pub rng_registers : List ℕ
rng_registers = 0x104000 ∷ 0x104004 ∷ 0x104008 ∷ 0x104010 ∷ []

-- The system timer
abbrev pub systmr_registers : List ℕ
systmr_registers = 0x3004 ∷ 0x3008 ∷ []

-- The SD card
abbrev pub emmc_registers : List ℕ
emmc_registers =
    0x300000 ∷ 0x300004 ∷ 0x300008 ∷ 0x30000c ∷ 0x300010 ∷ 0x300014 ∷ 0x300018 ∷ 0x30001c ∷ 0x300020
    ∷ 0x300024 ∷ 0x300028 ∷ 0x30002c ∷ 0x300030 ∷ 0x300034 ∷ 0x300038 ∷ 0x30003c ∷ 0x3000fc ∷ []

abbrev pub registers : List ℕ
registers =
    serial_registers ++ gpio_registers ++ irq_registers ++ rng_registers ++ systmr_registers
    ++ emmc_registers

-- CORE0_TIMER_IRQ_CTRL to CORE3_TIMER_IRQ_CTRL
abbrev pub core_timer_irq_ctrl : (core : ℕ) → ℕ
core_timer_irq_ctrl core = 0x40000040 + 4 * core

-- CORE0_IRQ_SRC to CORE3_IRQ_SRC
abbrev pub core_irq_src : (core : ℕ) → ℕ
core_irq_src core = 0x40000060 + 4 * core
