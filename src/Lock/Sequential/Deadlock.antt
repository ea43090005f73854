-- ===== src/Lock/Sequential/Deadlock.antt =====
-- The loop of kernel/lock.c's `sleeplock_acquire` on one CPU, with nothing else at work, over a lock that is taken.
use skinny_arm.Base.{ℕ, ◌≡◌, ◌≢◌, length}
use skinny_arm.Process.{ProcessState, Process, entry}
use skinny_arm.Lock.{Locked}

-- What rounds of the loop of `sleeplock_acquire` leave of `w`.
pub record IsAsleep (lk : ℕ) (w v : Locked) : Type 0 where
  pub current : v.system.current ≡ w.system.current
  pub marked :
      entry v.system w.system.current
      ≡ record (entry w.system w.system.current) { state = ProcessState.waiting; wait_on = lk }
  pub others : (i : ℕ) → i ≢ w.system.current → entry v.system i ≡ entry w.system i
  pub size : length v.system.process_array ≡ length w.system.process_array
  pub locked : v.lock.locked ≡ w.lock.locked
  pub released : v.lock.spin_lk.locked ≡ 0
