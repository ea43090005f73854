-- ===== src/Uart/Init.antt =====
-- kernel/uart.c's `uart_init`, lines 7 to 25: its writes of device registers, in order. The registers'
-- addresses are those of kernel/memory_map.h.
use skinny_arm.Vmem.KernelTable.{mmio_base}
use skinny_arm.Base.{ℕ, ◌+◌, bit_or, List, [], ◌∷◌}

abbrev aux_enable : ℕ
aux_enable = mmio_base + 0x00215004

abbrev aux_mu_ier : ℕ
aux_mu_ier = mmio_base + 0x00215044

abbrev aux_mu_iir : ℕ
aux_mu_iir = mmio_base + 0x00215048

abbrev aux_mu_lcr : ℕ
aux_mu_lcr = mmio_base + 0x0021504c

abbrev aux_mu_mcr : ℕ
aux_mu_mcr = mmio_base + 0x00215050

abbrev aux_mu_cntl : ℕ
aux_mu_cntl = mmio_base + 0x00215060

abbrev aux_mu_baud : ℕ
aux_mu_baud = mmio_base + 0x00215068

-- The address and the value of each write, where AUX_ENABLE holds `enabled` before.
unfoldable pub uart_init : (enabled : ℕ) → List (ℕ × ℕ)
uart_init enabled =
    (aux_enable, bit_or enabled 1)
    ∷ (aux_mu_cntl, 0)
    ∷ (aux_mu_ier, 0)
    ∷ (aux_mu_lcr, 3)
    ∷ (aux_mu_mcr, 0)
    ∷ (aux_mu_baud, 270)
    ∷ (aux_mu_iir, 0x6)
    ∷ (aux_mu_cntl, 1)
    ∷ (aux_mu_ier, 0x2)
    ∷ []
