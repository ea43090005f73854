-- ===== src/Start/Devices.antt =====
-- kernel/main.c, lines 44 to 53: what CPU 0 does with the devices behind `init_ramfs`, with the functions of
-- kernel/low_level.c that only set a system register. The writes of the serial port's registers go to a
-- device that is a parameter.
use skinny_arm.Base.{
  ℕ, ◌/◌, ◌^◌, ◌<◌, ◌≡◌, refl, ap, ◌∙◌, Option, none, some, List, [], ◌∷◌, ◌++◌, ◌==◌,
  if◌then◌else◌,
}
use skinny_arm.Memory.{Mem}
use skinny_arm.Irq.{Timer, enable_timer_interrupt, reprogram}
use skinny_arm.Uart.{MiniUart, uart_puts}
use skinny_arm.Uart.Init.{uart_init}
use skinny_arm.Uart.Echo.{chars, IsText, uart_puts-IsSent}

-- `daif` holds the four masks alone.
pub record SystemRegisters : Type 0 where
  pub vbar_el1 : ℕ
  pub daif : ℕ
  pub spsr_el1 : ℕ
  pub ttbr0_el1 : ℕ

unfoldable pub irq_vector_init : (vector : ℕ) → SystemRegisters → SystemRegisters
irq_vector_init vector r = record r { vbar_el1 = vector }

unfoldable pub enable_interrupts : SystemRegisters → SystemRegisters
enable_interrupts r = record r { daif = 0 }

unfoldable pub disable_interrupts : SystemRegisters → SystemRegisters
disable_interrupts r = record r { daif = 0xf }

unfoldable pub user_timer_interrputs_enable : SystemRegisters → SystemRegisters
user_timer_interrputs_enable r = record r { spsr_el1 = 0x340 }

unfoldable pub load_pagetable : (pagetable : ℕ) → SystemRegisters → SystemRegisters
load_pagetable pagetable r = record r { ttbr0_el1 = pagetable }

-- Writes of the serial port's registers: what has been sent stays sent.
pub record Setup (u : MiniUart) : Type 0 where
  pub write : (register value : ℕ) → u.Device → u.Device
  pub write_sent : (register value : ℕ) (d : u.Device) → u.sent (write register value d) ≡ u.sent d

module _ (u : MiniUart) (setup : Setup u) where
  open u use {Device, sent, wait}
  open setup use {write, write_sent}

  abbrev write_all : List (ℕ × ℕ) → Device → Device
  write_all [] d = d
  write_all ((register, value) ∷ rest) d = write_all rest (write register value d)

  pub record Board : Type 0 where
    pub registers : SystemRegisters
    pub timer : Timer
    pub device : Device

  -- Behind `uart_puts`.
  unfoldable pub enable_timers : (cpu_id : ℕ) → Board → Option Device → Option Board
  enable_timers cpu_id b none = none
  enable_timers cpu_id b (some d) =
      let (_, t) = enable_timer_interrupt cpu_id b.timer in
      some (record { registers = user_timer_interrputs_enable b.registers; timer = t; device = d })

  -- Lines 44 to 53; `hello` is the address of the string, and AUX_ENABLE holds `enabled`. `none` only if fuel
  -- runs out.
  unfoldable pub start_devices :
      (rounds fuel cpu_id vector hello enabled : ℕ) → Mem → Board → Option Board
  start_devices rounds fuel cpu_id vector hello enabled m b =
      let r = enable_interrupts (irq_vector_init vector b.registers) in
      let d = write_all (uart_init enabled) b.device in
      enable_timers cpu_id (record b { registers = r }) (uart_puts u rounds fuel hello m d)

  write_all-sent : (ws : List (ℕ × ℕ)) (d : Device) → sent (write_all ws d) ≡ sent d
  write_all-sent [] d = refl
  write_all-sent ((register, value) ∷ rest) d =
      write_all-sent rest (write register value d) ∙ write_sent register value d

  abbrev started : (vector : ℕ) → Board → Device → Board
  started vector b d = record {
    registers = record (b.registers) { vbar_el1 = vector; daif = 0; spsr_el1 = 0x340 };
    timer = record (b.timer) {
      cntp_ctl = 1;
      cntp_tval = b.timer.cntfrq / 2 ^ 8;
      irq_ctrl = λ core. if core == 0 then 2 else b.timer.irq_ctrl core;
    };
    device = d;
  }

  -- With a transmitter that is ready after fewer reads than there is fuel, and a text of `n` characters: the
  -- run on CPU 0 ends, and the text has been sent behind whatever had been sent before.
  start_devices-greeted :
      (n rounds fuel vector hello enabled : ℕ) (m : Mem) (b : Board)
      → n < rounds
      → ((d : Device) → wait d < fuel)
      → IsText u m hello n
      → (b' : Board) × (start_devices rounds fuel 0 vector hello enabled m b ≡ some b')
        × (sent b'.device ≡ sent b.device ++ chars u m hello n)
  unfolding start_devices enable_timers enable_timer_interrupt reprogram irq_vector_init
      enable_interrupts user_timer_interrputs_enable
  start_devices-greeted n rounds fuel vector hello enabled m b more patient text =
      let d = write_all (uart_init enabled) b.device in
      let (d', run, is) = uart_puts-IsSent u n rounds fuel hello m d more patient text in
      (
        started vector b d',
        rw run refl,
        is.out ∙ ap (λ s. s ++ chars u m hello n) (write_all-sent (uart_init enabled) b.device),
      )
