-- ===== src/Lock/Sequential.antt =====
-- kernel/lock.c on one CPU, with nothing else at work.
pub mod Deadlock
use skinny_arm.Base.{ℕ, zero, suc, ◌%◌, ◌≡◌, ◌≢◌, refl, true, none, some, arith, ◌==◌, eq→==, ne→==}
use skinny_arm.Process.{entry, wakeup}
use skinny_arm.Lock.{
  SpinLock, spinlock_holds, test_and_set, spin_loop, spinlock_acquire, spinlock_release,
  process_address, sleeplock_holds, Locked, sleep, sleep_loop, sleeplock_taken, sleeplock_acquire,
  sleeplock_release,
}

pub acquire_free :
    (fuel cpu : ℕ) (lk : SpinLock)
    → lk.locked ≡ 0
    → spinlock_acquire (suc fuel) cpu lk ≡ some (record lk { locked = 1; cpu = cpu })
unfolding spinlock_acquire spin_loop test_and_set
acquire_free fuel cpu lk unlocked = rw (unlocked, spin_loop)

pub release_own :
    (cpu : ℕ) (lk : SpinLock)
    → lk.cpu ≡ cpu
    → spinlock_release cpu lk ≡ (true, record lk { locked = 0; cpu = 0 })
unfolding spinlock_release spinlock_holds
release_own cpu lk own = rw (eq→== _ cpu own)

-- A free spin lock is taken in one round, whatever CPU asks; that CPU holds it then, can release it,
-- and leaves it free again.
spinlock_round_trip :
    (fuel cpu : ℕ) (lk : SpinLock)
    → lk.locked ≡ 0
    → (lk' : SpinLock) × (spinlock_acquire (suc fuel) cpu lk ≡ some lk')
      × (lk'.locked ≡ 1)
      × (spinlock_holds cpu lk' ≡ true)
      × (spinlock_release cpu lk' ≡ (true, record lk { locked = 0; cpu = 0 }))
unfolding spinlock_holds
spinlock_round_trip fuel cpu lk unlocked = (
  record lk { locked = 1; cpu = cpu },
  acquire_free fuel cpu lk unlocked,
  refl,
  eq→== cpu cpu refl,
  release_own cpu (record lk { locked = 1; cpu = cpu }) refl,
)

spin_loop-none : (fuel : ℕ) (lk : SpinLock) → lk.locked ≢ 0 → spin_loop fuel lk ≡ none
unfolding spin_loop test_and_set
spin_loop-none zero lk taken = refl
spin_loop-none (suc fuel) lk taken =
    rw (ne→== _ 0 taken) (spin_loop-none fuel (record lk { locked = 1 }) (omega arith))

-- A spin lock that is taken is never acquired while no other CPU releases it, for any number of
-- rounds: a CPU that acquires its own lock again spins for ever.
spinlock_acquire-deadlock :
    (fuel cpu : ℕ) (lk : SpinLock) → lk.locked ≢ 0 → spinlock_acquire fuel cpu lk ≡ none
unfolding spinlock_acquire
spinlock_acquire-deadlock fuel cpu lk taken = rw (spin_loop-none fuel lk taken, spinlock_acquire)

-- A free sleep lock whose spin lock is free is taken in one round, and its spin lock is free again;
-- the system is unchanged. `sleeplock_holds` then compares the low byte of the address of the
-- current process with the pid of that process.
sleeplock_acquire-holds :
    (base fuel lk cpu : ℕ) (w : Locked)
    → w.lock.locked ≡ 0
    → w.lock.spin_lk.locked ≡ 0
    → (w' : Locked) × (sleeplock_acquire base (suc fuel) lk cpu w ≡ some w')
      × (w'.lock.locked ≡ 1)
      × (w'.lock.spin_lk.locked ≡ 0)
      × (w'.system ≡ w.system)
      × (sleeplock_holds w'.system w'.lock
          ≡ (process_address base w.system.current % 256 == (entry w.system w.system.current).pid))
unfolding sleeplock_acquire sleeplock_taken sleeplock_holds sleep_loop
sleeplock_acquire-holds base fuel lk cpu w unlocked spin_unlocked = (
  record w {
    lock = record (w.lock) {
      spin_lk = record (w.lock.spin_lk) { locked = 0; cpu = 0 };
      locked = 1;
      pid = process_address base w.system.current % 256;
    };
  },
  rw (
    acquire_free fuel cpu w.lock.spin_lk spin_unlocked,
    eq→== _ 0 unlocked,
    release_own cpu (record (w.lock.spin_lk) { locked = 1; cpu = cpu }) refl,
    sleeplock_acquire,
  ),
  refl,
  refl,
  refl,
  refl,
)

-- Releasing a sleep lock whose spin lock is free: the lock is free and names no process, its spin
-- lock is free again, and the waiting processes are woken.
sleeplock_release-wakeup :
    (fuel lk cpu : ℕ) (w : Locked)
    → w.lock.spin_lk.locked ≡ 0
    → (w' : Locked) × (sleeplock_release (suc fuel) lk cpu w ≡ some w')
      × (w'.lock.locked ≡ 0)
      × (w'.lock.pid ≡ 0)
      × (w'.lock.spin_lk.locked ≡ 0)
      × (w'.system ≡ wakeup lk w.system)
unfolding sleeplock_release
sleeplock_release-wakeup fuel lk cpu w spin_unlocked = (
  record {
    lock = record (w.lock) {
      spin_lk = record (w.lock.spin_lk) { locked = 0; cpu = 0 };
      locked = 0;
      pid = 0;
    };
    system = wakeup lk w.system;
  },
  rw (
    acquire_free fuel cpu w.lock.spin_lk spin_unlocked,
    release_own cpu (record (w.lock.spin_lk) { locked = 1; cpu = cpu }) refl,
    sleeplock_release,
  ),
  refl,
  refl,
  refl,
  refl,
)
