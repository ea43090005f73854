-- ===== src/Lock.antt =====
-- kernel/lock.c: spin locks and sleep locks, and `sleep` of kernel/process.c, which hands a spin lock
-- back. `int8_t` is plain `char` (kernel/types.h), which AArch64 takes as unsigned, so the -1 of
-- `spinlock_init` is 255.
pub mod Sequential
pub mod Interleaved
pub mod Sleepers
use skinny_arm.Base.{
  ℕ, zero, suc, ◌+◌, ◌*◌, ◌%◌, Bool, true, false, Option, none, some, List, get_or, set, ◌==◌,
  if◌then◌else◌,
}
use skinny_arm.Process.{ProcessState, Process, System, entry, put, wakeup}

-- `struct SpinLock`
pub record SpinLock : Type 0 where
  pub locked : ℕ
  pub cpu : ℕ
  pub name : ℕ

unfoldable pub spinlock_init : (name : ℕ) → SpinLock
spinlock_init name = record { locked = 0; cpu = 255; name = name }

unfoldable pub spinlock_holds : (cpu_id : ℕ) → SpinLock → Bool
spinlock_holds cpu_id lk = lk.cpu == cpu_id

-- `__atomic_test_and_set(&lck->locked)`: the old value, and the lock with the flag set.
unfoldable pub test_and_set : SpinLock → ℕ × SpinLock
test_and_set lk = (lk.locked, record lk { locked = 1 })

-- `lck->cpu = get_cpu_id()`
abbrev pub set_cpu : ℕ → SpinLock → SpinLock
set_cpu cpu_id lk = record lk { cpu = cpu_id }

-- `__atomic_clear(&lck->locked)`
abbrev pub atomic_clear : SpinLock → SpinLock
atomic_clear lk = record lk { locked = 0 }

-- The `while` of `spinlock_acquire` on fuel, with no other CPU at work.
unfoldable pub spin_loop : ℕ → SpinLock → Option SpinLock
spin_loop zero lk = none
spin_loop (suc fuel) lk =
    let (old, lk') = test_and_set lk in
    let again = spin_loop fuel lk' in if old == 0 then some lk' else again

unfoldable pub spinlock_acquire : (fuel cpu_id : ℕ) → SpinLock → Option SpinLock
spinlock_acquire fuel cpu_id lk = elim (spin_loop fuel lk) [
  | none ↦ none
  | some lk' ↦ some (set_cpu cpu_id lk')
]

-- True for 0, false for -1.
unfoldable pub spinlock_release : (cpu_id : ℕ) → SpinLock → Bool × SpinLock
spinlock_release cpu_id lk =
    if spinlock_holds cpu_id lk then (true, atomic_clear (set_cpu 0 lk)) else (false, lk)

-- `struct SleepLock`
pub record SleepLock : Type 0 where
  pub spin_lk : SpinLock
  pub locked : ℕ
  pub pid : ℕ  -- uint8_t
  pub name : ℕ

unfoldable pub sleeplock_init : (name spin_name : ℕ) → SleepLock
sleeplock_init name spin_name = record {
  spin_lk = spinlock_init spin_name;
  locked = 0;
  pid = 0;
  name = name;
}

-- `get_current_process()`: the address of an entry of `process_array`, which holds 152 bytes.
abbrev pub process_address : (process_array current : ℕ) → ℕ
process_address process_array current = process_array + 152 * current

unfoldable pub sleeplock_holds : System → SleepLock → Bool
sleeplock_holds s lk = lk.pid == (entry s s.current).pid

-- A sleep lock and the system around it.
pub record Locked : Type 0 where
  pub lock : SleepLock
  pub system : System

-- `sleep(lk, &lk->spin_lk)`: it marks the current process and returns.
unfoldable pub sleep : (lk cpu_id : ℕ) → Locked → Locked
sleep lk cpu_id w =
    let s = w.system in
    let p = record (entry s s.current) { state = ProcessState.waiting; wait_on = lk } in
    let (_, spin) = spinlock_release cpu_id w.lock.spin_lk in
    record { lock = record (w.lock) { spin_lk = spin }; system = put s.current p s }

-- `while(lk->locked)` on fuel, with nothing else at work.
unfoldable pub sleep_loop : (fuel lk cpu_id : ℕ) → Locked → Option Locked
sleep_loop zero lk cpu_id w = none
sleep_loop (suc fuel) lk cpu_id w =
    let again = sleep_loop fuel lk cpu_id (sleep lk cpu_id w) in
    if w.lock.locked == 0 then some w else again

-- Behind the loop of `sleeplock_acquire`: the lock is taken, and the spin lock handed back.
unfoldable pub sleeplock_taken : (process_array cpu_id : ℕ) → Option Locked → Option Locked
sleeplock_taken process_array cpu_id none = none
sleeplock_taken process_array cpu_id (some w) =
    let owner = process_address process_array w.system.current % 256 in
    let (_, spin) = spinlock_release cpu_id w.lock.spin_lk in
    some (record w { lock = record (w.lock) { spin_lk = spin; locked = 1; pid = owner } })

unfoldable pub sleeplock_acquire : (process_array fuel lk cpu_id : ℕ) → Locked → Option Locked
sleeplock_acquire process_array fuel lk cpu_id w =
    elim (spinlock_acquire fuel cpu_id w.lock.spin_lk) [
      | none ↦ none
      | some spin ↦
          sleeplock_taken process_array cpu_id
            (sleep_loop fuel lk cpu_id (record w { lock = record (w.lock) { spin_lk = spin } }))
    ]

unfoldable pub sleeplock_release : (fuel lk cpu_id : ℕ) → Locked → Option Locked
sleeplock_release fuel lk cpu_id w = elim (spinlock_acquire fuel cpu_id w.lock.spin_lk) [
  | none ↦ none
  | some spin ↦
      let (_, spin') = spinlock_release cpu_id spin in
      some (record {
        lock = record (w.lock) { spin_lk = spin'; locked = 0; pid = 0 };
        system = wakeup lk w.system;
      })
]
