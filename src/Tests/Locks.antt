-- ===== src/Tests/Locks.antt =====
-- The locks at concrete inputs.
use skinny_arm.Base.{ℕ, ◌≡◌, refl, Bool, not, ◌&&◌, [], ◌∷◌, arith, ◌==◌}
use skinny_arm.Process.{ProcessState, no_process, no_registers, System}
use skinny_arm.Lock.{SpinLock, spinlock_init, spinlock_holds, test_and_set, Locked}
use skinny_arm.Lock.Interleaved.{Pc, Move, World, update, Step, Reach, mutual_exclusion}
use skinny_arm.Lock.Interleaved.Stray.{two_holding}
use skinny_arm.Lock.Sleepers.{Sleepers, SleepPc, Reached, two_inside}
use skinny_arm.Tests.Boot.{boot}

abbrev unlocked : SpinLock
unlocked = record { locked = 0; cpu = 255; name = 0 }

-- One process at work, and a sleep lock.
abbrev system : System
system = record {
  kernel = boot;
  process_array = record no_process { state = ProcessState.running; pid = 1 } ∷ [];
  cpu = no_registers;
  ttbr0 = 0;
  current = 0;
}

abbrev open_lock : Locked
open_lock = record {
  lock = record { spin_lk = unlocked; locked = 0; pid = 0; name = 0 };
  system = system;
}

abbrev held_lock : Locked
held_lock = record open_lock { lock = record { spin_lk = unlocked; locked = 1; pid = 1; name = 0 } }

-- All CPUs but two also release the lock while they are outside.
abbrev careful : ℕ → Bool
careful i = not (i == 0) && not (i == 255)

-- CPU 3 asks for the lock and gets it, and CPU 5, which is outside, calls `spinlock_release` in vain.
abbrev called : World
called = record { lock = unlocked; pc = update (λ i. Pc.idle) 3 Pc.spinning }

called-Reach : Reach careful 0 called
unfolding spinlock_init
called-Reach = Reach.later Reach.start (Step.pick 3 Move.call)

abbrev held : World
held = record {
  lock = record { locked = 1; cpu = 3; name = 0 };
  pc = update (update (update called.pc 3 Pc.won) 3 Pc.holding) 5 Pc.idle;
}

held-Reach : Reach careful 0 held
unfolding test_and_set spinlock_holds
held-Reach =
    Reach.later
      (Reach.later (Reach.later called-Reach (Step.pick 3 (Move.win refl))) (Step.pick 3 Move.name))
      (Step.pick 5 (Move.fail refl refl))

mutual_exclusion_example : ◌≡◌ {A = ℕ} 3 3
mutual_exclusion_example = mutual_exclusion (refl, refl) held-Reach 3 3 refl refl

two_holding_example :
    (w : World) × Reach (λ i. i == 0) 7 w × (w.pc 1 ≡ Pc.holding) × (w.pc 2 ≡ Pc.holding)
two_holding_example = two_holding (λ i. i == 0) 7 1 2 refl (omega arith) (omega arith) (omega arith)

two_inside_example :
    (w : Sleepers) × Reached 0x200000 0x500 system 0 0 w
    × (w.pc 1 ≡ SleepPc.inside)
    × (w.pc 2 ≡ SleepPc.inside)
two_inside_example =
    two_inside 0x200000 0x500 system 0 0 3 1 2 (omega arith) (omega arith) (omega arith)
