-- ===== src/Uart.antt =====
-- kernel/uart.c: input and output through the mini UART, whose registers are those of the device.
pub mod Echo
pub mod Init
use skinny_arm.Base.{
  ℕ, zero, suc, ◌+◌, ◌%◌, ◌≤◌, ◌<◌, ◌≡◌, ◌≢◌, bit_and, Bool, true, false, Option, none, some, List,
  [], ◌∷◌, ◌++◌, ◌==◌, if◌then◌else◌,
}
use skinny_arm.Memory.{Mem}

-- The mini UART. `read_lsr` and `read_io` read AUX_MU_LSR and AUX_MU_IO, which may change the device,
-- and `write_io` writes AUX_MU_IO. The other fields say what has arrived, what has been sent and how
-- long the transmitter may be busy.
pub record MiniUart : Type 1 where
  pub Device : Type 0
  pub read_lsr : Device → ℕ × Device
  pub read_io : Device → ℕ × Device
  pub write_io : ℕ → Device → Device
  pub iir : Device → ℕ
  pub received : Device → List ℕ
  pub sent : Device → List ℕ
  pub is_ready : Device → Bool
  pub wait : Device → ℕ
  -- Bit 0 of AUX_MU_LSR: is there a byte to read?
  pub lsr_nothing : (d : Device) → received d ≡ [] → bit_and (read_lsr d).0 0x01 ≡ 0
  pub lsr_something :
      (d : Device) (b : ℕ) (bs : List ℕ) → received d ≡ b ∷ bs → bit_and (read_lsr d).0 0x01 ≢ 0
  -- Bit 5: can a byte be written? After at most `wait` reads it can.
  pub lsr_ready : (d : Device) → bit_and (read_lsr d).0 0x20 ≢ 0 → is_ready (read_lsr d).1 ≡ true
  pub lsr_wait : (d : Device) → bit_and (read_lsr d).0 0x20 ≡ 0 → wait (read_lsr d).1 < wait d
  pub lsr_received : (d : Device) → received (read_lsr d).1 ≡ received d
  pub lsr_sent : (d : Device) → sent (read_lsr d).1 ≡ sent d
  -- A read of AUX_MU_IO takes the oldest byte.
  pub io_byte : (d : Device) (b : ℕ) (bs : List ℕ) → received d ≡ b ∷ bs → (read_io d).0 % 256 ≡ b
  pub io_received :
      (d : Device) (b : ℕ) (bs : List ℕ) → received d ≡ b ∷ bs → received (read_io d).1 ≡ bs
  pub io_sent : (d : Device) → sent (read_io d).1 ≡ sent d
  -- A write of AUX_MU_IO sends a byte.
  pub write_sent : (c : ℕ) (d : Device) → is_ready d ≡ true → sent (write_io c d) ≡ sent d ++ c ∷ []
  pub write_received : (c : ℕ) (d : Device) → received (write_io c d) ≡ received d

module _ (u : MiniUart) where
  open u use {Device, read_lsr, read_io, write_io, iir}

  -- `spin()` only waits.
  unfoldable pub uart_send : (fuel c : ℕ) → Device → Option Device
  uart_send zero c d = none
  uart_send (suc fuel) c d =
      let (lsr, d') = read_lsr d in
      let again = uart_send fuel c d' in
      if bit_and lsr 0x20 == 0 then again else some (write_io c d')

  -- `r=='\r'?'\n':r`
  abbrev pub newline : ℕ → ℕ
  newline r = if r == 13 then 10 else r

  unfoldable pub uart_getc_sync : (fuel : ℕ) → Device → Option (ℕ × Device)
  uart_getc_sync zero d = none
  uart_getc_sync (suc fuel) d =
      let (lsr, d') = read_lsr d in
      let again = uart_getc_sync fuel d' in
      let (r, d'') = read_io d' in
      if bit_and lsr 0x01 == 0 then again else some (newline (r % 256), d'')

  -- A `char` is unsigned, so that the -1 of an empty buffer is 255.
  unfoldable pub uart_getc : Device → ℕ × Device
  uart_getc d =
      let (lsr, d') = read_lsr d in
      let (r, d'') = read_io d' in
      if bit_and lsr 0x01 == 0 then (255, d') else (newline (r % 256), d'')

  -- `uart_puts` of the string at `s`
  unfoldable pub uart_puts : (rounds fuel s : ℕ) → Mem → Device → Option Device
  uart_puts zero fuel s m d = none
  uart_puts (suc rounds) fuel s m d = elim (m s == 0) [
    | true ↦ some d
    | false ↦ elim (uart_send fuel (m s) d) [
      | none ↦ none
      | some d' ↦ uart_puts rounds fuel (s + 1) m d'
    ]
  ]

  -- The `while` of `uart_interrupt`, with the last character that was read.
  unfoldable pub echo_loop : (rounds fuel c : ℕ) → Device → Option Device
  echo_loop zero fuel c d = none
  echo_loop (suc rounds) fuel c d = elim (c == 255) [
    | true ↦ some d
    | false ↦ elim (uart_send fuel c d) [
      | none ↦ none
      | some d' ↦ let (c', d'') = uart_getc d' in echo_loop rounds fuel c' d''
    ]
  ]

  unfoldable pub uart_interrupt : (rounds fuel : ℕ) → Device → Option Device
  uart_interrupt rounds fuel d =
      let (c, d') = uart_getc d in
      let echoed = echo_loop rounds fuel c d' in if bit_and (iir d) 4 == 0 then some d else echoed
