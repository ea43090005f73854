-- ===== src/Irq.antt =====
-- kernel/exceptions.c: `handle_irq` and `exception_handler`, with `enable_timer_interrupt` of
-- kernel/low_level.c.
pub mod Handled
mod Messages
use skinny_arm.Base.{
  ℕ, zero, suc, ◌+◌, ◌*◌, ◌/◌, ◌%◌, ◌^◌, ◌<◌, ◌≡◌, bit_and, Bool, true, false, not, ◌&&◌, ◌||◌,
  Option, none, some, List, [], ◌∷◌, ◌++◌, ◌==◌, if◌then◌else◌,
}
use skinny_arm.Uart.{MiniUart, uart_interrupt}

-- The timer of a CPU: `cntfrq_el0`, `cntp_tval_el0`, `cntp_ctl_el0`, the control registers
-- CORE0_TIMER_IRQ_CTRL, …, and what the registers CORE0_IRQ_SRC, … hold when an interrupt comes.
pub record Timer : Type 0 where
  pub cntfrq : ℕ
  pub cntp_tval : ℕ
  pub cntp_ctl : ℕ
  pub irq_ctrl : ℕ → ℕ
  pub irq_src : ℕ → ℕ

-- `lsr x0, x0, x1` shifts by `x1` modulo 64.
abbrev pub lsr : ℕ → ℕ → ℕ
lsr x y = x / 2 ^ (y % 64)

-- `cntp_tval_el0` becomes `cntfrq_el0`, shifted right by 200.
unfoldable pub reprogram : Timer → Timer
reprogram t = record t { cntp_tval = lsr t.cntfrq 200 }

-- `enable_timer_interrupt` on CPU `cpu_id`, with what it returns: false for -1.
unfoldable pub enable_timer_interrupt : (cpu_id : ℕ) → Timer → Bool × Timer
enable_timer_interrupt cpu_id t =
    let t' = reprogram (record t { cntp_ctl = 1 }) in
    let enabled = record t' { irq_ctrl = λ i. if i == cpu_id then 2 else t'.irq_ctrl i } in
    if cpu_id == 0 || cpu_id == 1 || cpu_id == 2 || cpu_id == 3 then (true, enabled) else (false, t)

-- The `switch` of `handle_irq` on the CPU; for a number above 3 the pointer has no value, and the word
-- that it points to is `stray`.
unfoldable pub source : (cpu_id stray : ℕ) → Timer → ℕ
source cpu_id stray t =
    if cpu_id == 0
    then t.irq_src 0
    else if cpu_id == 1
    then t.irq_src 1
    else if cpu_id == 2
    then t.irq_src 2
    else if cpu_id == 3
    then t.irq_src 3
    else stray

-- What `handle_irq` reads and writes besides the mini UART's data and the timer: AUX_IRQ and
-- AUX_MU_IIR. A write of AUX_MU_IIR empties the receiver's buffer if bit 1 is set
-- and the transmitter's if bit 2 is.
pub record Interrupts (u : MiniUart) : Type 0 where
  pub aux_irq : u.Device → ℕ
  pub write_iir : ℕ → u.Device → u.Device
  pub iir_received :
      (v : ℕ) (d : u.Device) → bit_and v 2 ≡ 0 → u.received (write_iir v d) ≡ u.received d
  pub iir_sent : (v : ℕ) (d : u.Device) → bit_and v 4 ≡ 0 → u.sent (write_iir v d) ≡ u.sent d

module _ (u : MiniUart) (irq : Interrupts u) where
  open u use {Device, iir}
  open irq use {aux_irq, write_iir}

  -- `if (*AUX_IRQ & 0x1 && (*AUX_MU_IIR & 0b100))`
  unfoldable pub serial_irq : (rounds fuel : ℕ) → Device → Option Device
  serial_irq rounds fuel d =
      let served = uart_interrupt u rounds fuel d in
      if not (bit_and (aux_irq d) 0x1 == 0) && not (bit_and (iir d) 4 == 0) then served else some d

  -- Behind the serial port: the timer, and AUX_MU_IIR.
  unfoldable pub timer_irq : (cpu_id stray : ℕ) → Device → Timer → Device × Timer
  timer_irq cpu_id stray d t =
      let t' = if bit_and (source cpu_id stray t) 2 == 0 then t else reprogram t in
      (write_iir (bit_and (iir d) 1) d, t')

  unfoldable pub handle_irq :
      (rounds fuel cpu_id stray : ℕ) → Device → Timer → Option (Device × Timer)
  handle_irq rounds fuel cpu_id stray d t = elim (serial_irq rounds fuel d) [
    | none ↦ none
    | some d' ↦ some (timer_irq cpu_id stray d' t)
  ]
