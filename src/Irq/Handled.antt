-- ===== src/Irq/Handled.antt =====
-- What kernel/exceptions.c's `handle_irq` does to the serial port and to the timer.
use skinny_arm.Base.{
  ℕ, zero, suc, ◌/◌, ◌^◌, ◌<◌, ◌≤◌, Bool-cases, inl, inr, ◌≡◌, ◌≢◌, bit_and, Bool, true, not, ◌&&◌,
  some, [], ◌++◌, ◌==◌, if◌then◌else◌, length, arith, refl, ◌∙◌, sym,
}
use mathlib.Core.List.{append-nil}
use skinny_arm.Bits.{bit_and-le}
use skinny_arm.Uart.{MiniUart}
use skinny_arm.Uart.Echo.{echoed, left, uart_interrupt-echoed}
use skinny_arm.Irq.{Timer, Interrupts, reprogram, serial_irq, source, timer_irq, handle_irq}

bit_and-small : (v : ℕ) → v ≤ 1 → (bit_and v 2 ≡ 0) × (bit_and v 4 ≡ 0)
bit_and-small zero le = (refl, refl)
bit_and-small (suc zero) le = (refl, refl)
bit_and-small (suc (suc v)) le = absurd (omega arith)

-- The timer of CPU `cpu_id` behind an interrupt: if it caused it, it starts anew.
abbrev pub next_timer : (cpu_id : ℕ) → Timer → Timer
next_timer cpu_id t =
    if bit_and (t.irq_src cpu_id) 2 == 0 then t else record t { cntp_tval = t.cntfrq / 2 ^ 8 }

source-lt : (cpu_id stray : ℕ) (t : Timer) → cpu_id < 4 → source cpu_id stray t ≡ t.irq_src cpu_id
unfolding source
source-lt zero stray t lt = refl
source-lt (suc zero) stray t lt = refl
source-lt (suc (suc zero)) stray t lt = refl
source-lt (suc (suc (suc zero))) stray t lt = refl
source-lt (suc (suc (suc (suc i)))) stray t lt = absurd (omega arith)

module _ (u : MiniUart) (irq : Interrupts u) where
  open u use {Device, iir, received, sent, wait}
  open irq use {aux_irq, write_iir, iir_received, iir_sent}

  -- The bytes that `handle_irq` echoes.
  abbrev pub due : Device → Bool
  due d = not (bit_and (aux_irq d) 1 == 0) && not (bit_and (iir d) 4 == 0)

  received_due : (d : Device) → due d ≡ true → bit_and (iir d) 4 ≢ 0
  received_due d pending = ground (arith, pending)

  serial_irq-due :
      (rounds fuel : ℕ) (d : Device)
      → length (received d) < rounds
      → ((d : Device) → wait d < fuel)
      → (e : Device) × (serial_irq u irq rounds fuel d ≡ some e)
        × (sent e ≡ sent d ++ (if due d then echoed (received d) else []))
        × (received e ≡ (if due d then left (received d) else received d))
  unfolding serial_irq
  serial_irq-due rounds fuel d more patient = elim (Bool-cases (due d)) [
    | inl pending ↦
        let (e, run, out, rest) =
          uart_interrupt-echoed u rounds fuel d more patient (received_due d pending) in
        (e, rw pending run, rw pending out, rw pending rest)
    | inr idle ↦ (d, rw idle refl, rw idle (sym (append-nil (sent d))), rw idle refl)
  ]

  -- On a CPU below 4, with a round for each byte that has arrived and one more, and a transmitter that
  -- becomes ready in time, `handle_irq` ends. If the mini UART has an interrupt for received bytes, those
  -- up to the first byte 255 are echoed, and else none is read; in both cases the reset of
  -- AUX_MU_IIR loses no byte. If the CPU's timer has an interrupt, it is started again with a 256th of its
  -- frequency, and else it is left alone.
  pub handle_irq_lem :
      (rounds fuel cpu_id stray : ℕ) (d : Device) (t : Timer)
      → cpu_id < 4
      → length (received d) < rounds
      → ((d : Device) → wait d < fuel)
      → (e : Device) × (handle_irq u irq rounds fuel cpu_id stray d t
          ≡ some (e, next_timer cpu_id t))
        × (sent e ≡ sent d ++ (if due d then echoed (received d) else []))
        × (received e ≡ (if due d then left (received d) else received d))
  unfolding handle_irq timer_irq reprogram
  handle_irq_lem rounds fuel cpu_id stray d t lt more patient =
      let (e, run, out, rest) = serial_irq-due rounds fuel d more patient in
      let v = bit_and (iir e) 1 in
      let quiet = bit_and-small v (bit_and-le (iir e) 1) in
      (
        write_iir v e,
        rw (run, handle_irq, source-lt cpu_id stray t lt, timer_irq) refl,
        iir_sent v e quiet.1 ∙ out,
        iir_received v e quiet.0 ∙ rest,
      )
