-- ===== src/Uart/Echo.antt =====
-- What kernel/uart.c sends.
use skinny_arm.Base.{
  ℕ, zero, suc, ◌+◌, ◌<◌, ◌≡◌, ◌≢◌, bit_and, refl, sym, ap, ap₂, ◌∙◌, true, false, Bool-cases, inl,
  inr, some, List, [], ◌∷◌, ◌++◌, length, arith, ◌==◌, ne→==, eq→==, ==→eq, ==→ne, if◌then◌else◌,
}
use mathlib.Core.List.{append_assoc, append-nil}
use skinny_arm.Memory.{Mem}
use skinny_arm.Uart.{MiniUart, uart_send, newline, uart_getc, uart_puts, echo_loop, uart_interrupt}

-- What is echoed of the bytes that have arrived, and what stays: all up to the first byte 255, which
-- is lost.
abbrev pub echoed : List ℕ → List ℕ
echoed [] = []
echoed (b ∷ bs) = if b == 255 then [] else (if b == 13 then 10 else b) ∷ echoed bs

abbrev pub left : List ℕ → List ℕ
left [] = []
left (b ∷ bs) = if b == 255 then bs else left bs

module _ (u : MiniUart) where
  open u use {
    Device, read_lsr, read_io, write_io, iir, received, sent, wait, lsr_nothing, lsr_something,
    lsr_ready, lsr_wait, lsr_received, lsr_sent, io_byte, io_received, io_sent, write_sent,
    write_received,
  }

  -- A byte that was sent.
  pub record IsSent (d : Device) (cs : List ℕ) (d' : Device) : Type 0 where
    pub out : sent d' ≡ sent d ++ cs
    pub kept : received d' ≡ received d

  uart_send-IsSent :
      (fuel c : ℕ) (d : Device)
      → wait d < fuel
      → (d' : Device) × (uart_send u fuel c d ≡ some d') × IsSent d (c ∷ []) d'
  unfolding uart_send
  uart_send-IsSent zero c d enough = absurd (omega arith)
  uart_send-IsSent (suc fuel) c d enough = elim (Bool-cases (bit_and (read_lsr d).0 0x20 == 0)) [
    | inl busy ↦
        let shorter = lsr_wait d (==→eq (bit_and (read_lsr d).0 0x20) 0 busy) in
        let (d', run, is) = uart_send-IsSent fuel c (read_lsr d).1 (omega arith) in
        (
          d',
          rw busy run,
          record {
            out = is.out ∙ ap (λ s. s ++ c ∷ []) (lsr_sent d);
            kept = is.kept ∙ lsr_received d;
          },
        )
    | inr free ↦
        let ready = lsr_ready d (==→ne (bit_and (read_lsr d).0 0x20) 0 free) in
        (
          write_io c (read_lsr d).1,
          rw free refl,
          record {
            out = write_sent c (read_lsr d).1 ready ∙ ap (λ s. s ++ c ∷ []) (lsr_sent d);
            kept = write_received c (read_lsr d).1 ∙ lsr_received d;
          },
        )
  ]

  IsSent-trans :
      {d d' d'' : Device} (cs es : List ℕ)
      → IsSent d cs d'
      → IsSent d' es d''
      → IsSent d (cs ++ es) d''
  IsSent-trans {d} cs es p q = record {
    out = q.out ∙ ap (λ s. s ++ es) p.out ∙ append_assoc (sent d) cs es;
    kept = q.kept ∙ p.kept;
  }

  -- A string of `n` characters is sent as it stands.
  abbrev pub chars : Mem → (s n : ℕ) → List ℕ
  chars m s zero = []
  chars m s (suc n) = m s ∷ chars m (s + 1) n

  abbrev pub IsText : Mem → (s n : ℕ) → Type 0
  IsText m s zero = m s ≡ 0
  IsText m s (suc n) = (m s ≢ 0) × IsText m (s + 1) n

  pub uart_puts-IsSent :
      (n rounds fuel s : ℕ) (m : Mem) (d : Device)
      → n < rounds
      → ((d : Device) → wait d < fuel)
      → IsText m s n
      → (d' : Device) × (uart_puts u rounds fuel s m d ≡ some d') × IsSent d (chars m s n) d'
  unfolding uart_puts
  uart_puts-IsSent n zero fuel s m d more patient text = absurd (omega arith)
  uart_puts-IsSent zero (suc rounds) fuel s m d more patient text = (
    d,
    rw (eq→== (m s) 0 text, uart_puts) refl,
    record { out = sym (append-nil (sent d)); kept = refl },
  )
  uart_puts-IsSent (suc n) (suc rounds) fuel s m d more patient text =
      let (d', run, is) = uart_send-IsSent fuel (m s) d (patient d) in
      let (d'', run', is') =
        uart_puts-IsSent n rounds fuel (s + 1) m d' (omega arith) patient text.1 in
      (
        d'',
        rw (ne→== (m s) 0 text.0, run, uart_puts) run',
        IsSent-trans (m s ∷ []) (chars m (s + 1) n) is is',
      )

  -- What `uart_getc` makes of the bytes that have arrived.
  getc_char : List ℕ → ℕ
  getc_char [] = 255
  getc_char (b ∷ bs) = newline u b

  record IsRead (d : Device) (bs : List ℕ) (d' : Device) : Type 0 where
    quiet : sent d' ≡ sent d
    rest : received d' ≡ bs

  uart_getc-nothing :
      (d : Device) → received d ≡ [] → ((uart_getc u d).0 ≡ 255) × IsRead d [] (uart_getc u d).1
  unfolding uart_getc
  uart_getc-nothing d none_left =
      let test = eq→== (bit_and (read_lsr d).0 0x01) 0 (lsr_nothing d none_left) in
      rw test (refl, record { quiet = lsr_sent d; rest = lsr_received d ∙ none_left })

  uart_getc-something :
      (d : Device) (b : ℕ) (bs : List ℕ)
      → received d ≡ b ∷ bs
      → ((uart_getc u d).0 ≡ newline u b) × IsRead d bs (uart_getc u d).1
  unfolding uart_getc
  uart_getc-something d b bs some_left =
      let test = ne→== (bit_and (read_lsr d).0 0x01) 0 (lsr_something d b bs some_left) in
      let still = lsr_received d ∙ some_left in
      rw test (
        ap (newline u) (io_byte (read_lsr d).1 b bs still),
        record {
          quiet = io_sent (read_lsr d).1 ∙ lsr_sent d;
          rest = io_received (read_lsr d).1 b bs still;
        },
      )

  -- The loop from a read of `d` on, with `bs` still to read there.
  echo_loop-echoed :
      (bs : List ℕ) (rounds fuel : ℕ) (d : Device)
      → length bs < rounds
      → ((d : Device) → wait d < fuel)
      → received d ≡ bs
      → let (c, d') = uart_getc u d in
        (e : Device) × (echo_loop u rounds fuel c d' ≡ some e)
        × (sent e ≡ sent d ++ echoed bs)
        × (received e ≡ left bs)
  unfolding echo_loop
  echo_loop-echoed bs zero fuel d more patient has = absurd (omega arith)
  echo_loop-echoed [] (suc rounds) fuel d more patient has =
      let (end, is) = uart_getc-nothing d has in
      ((uart_getc u d).1, rw (end, echo_loop) refl, is.quiet ∙ sym (append-nil (sent d)), is.rest)
  echo_loop-echoed (b ∷ bs) (suc rounds) fuel d more patient has = elim (Bool-cases (b == 255)) [
    | inl stop ↦
        let (c, is) = uart_getc-something d b bs has in
        let c' : (uart_getc u d).0 == 255 ≡ true = ground (arith, c, stop) in
        (
          (uart_getc u d).1,
          rw (c', echo_loop) refl,
          rw stop (is.quiet ∙ sym (append-nil (sent d))),
          rw stop is.rest,
        )
    | inr go ↦
        let (c, is) = uart_getc-something d b bs has in
        let c' : (uart_getc u d).0 == 255 ≡ false = ground (arith, c, go) in
        let (d', run, sent_one) =
          uart_send-IsSent fuel (uart_getc u d).0 (uart_getc u d).1 (patient (uart_getc u d).1) in
        let (e, run', out, rest) =
          echo_loop-echoed bs rounds fuel d' (omega arith) patient (sent_one.kept ∙ is.rest) in
        (
          e,
          rw (c', run, echo_loop) run',
          rw go (
              out
              ∙ ap (λ s. s ++ echoed bs) (sent_one.out ∙ ap₂ (λ s x. s ++ x ∷ []) is.quiet c)
              ∙ append_assoc (sent d) (newline u b ∷ []) (echoed bs)),
          rw go rest,
        )
  ]

  -- On an interrupt for received bytes `uart_interrupt` ends, if the transmitter becomes ready in time
  -- and there is a round for each byte and one more: it sends back every byte that has arrived, in
  -- order and with 13 as 10, up to the first byte 255, which is lost with the echo of all behind it.
  pub uart_interrupt-echoed :
      (rounds fuel : ℕ) (d : Device)
      → length (received d) < rounds
      → ((d : Device) → wait d < fuel)
      → bit_and (iir d) 4 ≢ 0
      → (e : Device) × (uart_interrupt u rounds fuel d ≡ some e)
        × (sent e ≡ sent d ++ echoed (received d))
        × (received e ≡ left (received d))
  unfolding uart_interrupt
  uart_interrupt-echoed rounds fuel d more patient pending =
      rw (ne→== (bit_and (iir d) 4) 0 pending)
        (echo_loop-echoed (received d) rounds fuel d more patient refl)
