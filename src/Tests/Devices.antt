-- ===== src/Tests/Devices.antt =====
-- The serial port and the interrupts at a concrete device.
use skinny_arm.Base.{
  ℕ, ◌%◌, ◌≡◌, ◌≢◌, bit_and, refl, true, some, ◌==◌, if◌then◌else◌, List, [], ◌∷◌, ◌++◌, arith,
}
use skinny_arm.Irq.{Timer, Interrupts, handle_irq}
use skinny_arm.Irq.Handled.{next_timer, handle_irq_lem}
use skinny_arm.Uart.{MiniUart, uart_interrupt}
use skinny_arm.Uart.Echo.{echoed, left, uart_interrupt-echoed}

-- A port whose transmitter is always ready: what has arrived, and what has been sent.
record Port : Type 0 where
  arrived : List ℕ
  gone : List ℕ

abbrev bytes : List ℕ → List ℕ
bytes [] = []
bytes (b ∷ bs) = b % 256 ∷ bytes bs

abbrev lsr_of : List ℕ → ℕ
lsr_of [] = 0x20
lsr_of (b ∷ bs) = 0x21

abbrev first : List ℕ → ℕ
first [] = 0
first (b ∷ bs) = b

abbrev behind_first : List ℕ → List ℕ
behind_first [] = []
behind_first (b ∷ bs) = bs

lsr_nothing_lem : (bs : List ℕ) → bytes bs ≡ [] → bit_and (lsr_of bs) 0x01 ≡ 0
lsr_nothing_lem [] h = refl
lsr_nothing_lem (b ∷ bs) h = absurd (cc h)

lsr_something_lem :
    (xs : List ℕ) (b : ℕ) (bs : List ℕ) → bytes xs ≡ b ∷ bs → bit_and (lsr_of xs) 0x01 ≢ 0
lsr_something_lem [] b bs h = absurd (cc h)
lsr_something_lem (a ∷ xs) b bs h = omega arith

lsr_busy : (bs : List ℕ) → bit_and (lsr_of bs) 0x20 ≢ 0
lsr_busy [] = omega arith
lsr_busy (b ∷ bs) = omega arith

first_lem : (xs : List ℕ) (b : ℕ) (bs : List ℕ) → bytes xs ≡ b ∷ bs → first xs % 256 ≡ b
first_lem [] b bs h = absurd (cc h)
first_lem (a ∷ xs) b bs h = cc h

behind_first_lem :
    (xs : List ℕ) (b : ℕ) (bs : List ℕ) → bytes xs ≡ b ∷ bs → bytes (behind_first xs) ≡ bs
behind_first_lem [] b bs h = absurd (cc h)
behind_first_lem (a ∷ xs) b bs h = cc h

abbrev port : MiniUart
port = record {
  Device = Port;
  read_lsr = λ p. (lsr_of p.arrived, p);
  read_io = λ p. (first p.arrived, record { arrived = behind_first p.arrived; gone = p.gone });
  write_io = λ c p. record { arrived = p.arrived; gone = p.gone ++ c ∷ [] };
  iir = λ p. 4;
  received = λ p. bytes p.arrived;
  sent = λ p. p.gone;
  is_ready = λ p. true;
  wait = λ p. 0;
  lsr_nothing = λ p h. lsr_nothing_lem p.arrived h;
  lsr_something = λ p b bs h. lsr_something_lem p.arrived b bs h;
  lsr_ready = λ p h. refl;
  lsr_wait = λ p h. absurd (lsr_busy p.arrived h);
  lsr_received = λ p. refl;
  lsr_sent = λ p. refl;
  io_byte = λ p b bs h. first_lem p.arrived b bs h;
  io_received = λ p b bs h. behind_first_lem p.arrived b bs h;
  io_sent = λ p. refl;
  write_sent = λ c p h. refl;
  write_received = λ c p. refl;
}

-- `a`, a carriage return, 255 and `b` have arrived.
abbrev typed : Port
typed = record { arrived = 97 ∷ 13 ∷ 255 ∷ 98 ∷ []; gone = [] }

uart_interrupt-echoed_example :
    (e : Port) × (uart_interrupt port 5 1 typed ≡ some e)
    × (e.gone ≡ echoed (97 ∷ 13 ∷ 255 ∷ 98 ∷ []))
    × (bytes e.arrived ≡ left (97 ∷ 13 ∷ 255 ∷ 98 ∷ []))
uart_interrupt-echoed_example =
    uart_interrupt-echoed port 5 1 typed (omega arith) (λ p. omega arith) (omega arith)

typed_left : echoed (97 ∷ 13 ∷ 255 ∷ 98 ∷ []) ≡ 97 ∷ 10 ∷ []
typed_left = refl

-- A port with an interrupt, and a timer whose interrupt is that of CPU 1.
abbrev interrupts : Interrupts port
interrupts = record {
  aux_irq = λ p. 1;
  write_iir = λ v p. p;
  iir_received = λ v p h. refl;
  iir_sent = λ v p h. refl;
}

abbrev timer : Timer
timer = record {
  cntfrq = 19200000;
  cntp_tval = 0;
  cntp_ctl = 1;
  irq_ctrl = λ i. 2;
  irq_src = λ i. if i == 1 then 2 else 0;
}

handle_irq_lem_example :
    (e : Port) × (handle_irq port interrupts 5 1 1 0 typed timer ≡ some (e, next_timer 1 timer))
    × (e.gone ≡ echoed (97 ∷ 13 ∷ 255 ∷ 98 ∷ []))
    × (bytes e.arrived ≡ left (97 ∷ 13 ∷ 255 ∷ 98 ∷ []))
handle_irq_lem_example =
    handle_irq_lem port interrupts 5 1 1 0 typed timer (omega arith) (omega arith)
      (λ p. omega arith)

timer_again : (next_timer 1 timer).cntp_tval ≡ 75000
timer_again = refl
