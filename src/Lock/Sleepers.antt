-- ===== src/Lock/Sleepers.antt =====
-- The sleep lock of kernel/lock.c with any number of CPUs, in coarse steps: process `i` runs on CPU `i`,
-- and the spin lock is taken at once when it is free.
use skinny_arm.Base.{ℕ, ◌≡◌, ◌≢◌, refl, ap, some, arith, ◌==◌, if◌then◌else◌}
use skinny_arm.Process.{System, wakeup}
use skinny_arm.Lock.Sequential.{acquire_free, release_own}
use skinny_arm.Lock.{
  SpinLock, Locked, spinlock_acquire, spinlock_release, sleep, sleeplock_taken, sleeplock_release,
  sleeplock_init, spinlock_init,
}

-- Outside; in the `while` of `sleeplock_acquire`; behind it, before `lk->locked` is set; between acquire
-- and release.
pub data SleepPc : Type 0 where
  outside waiting passed inside : SleepPc

-- `w` as process `i` sees it.
abbrev seen_by : ℕ → Locked → Locked
seen_by i w = record w { system = record (w.system) { current = i } }

-- All processes, and the lock.
pub record Sleepers : Type 0 where
  pub state : Locked
  pub pc : ℕ → SleepPc

abbrev pub move_to : (ℕ → SleepPc) → ℕ → SleepPc → ℕ → SleepPc
move_to f i p j = if i == j then p else f j

module _ (process_array lk : ℕ) where
  -- A step of process `i`.
  pub data SleepMove (i : ℕ) (w : Locked) : SleepPc → Locked → SleepPc → Type 0 where
    enter :
        {spin : SpinLock}
        → spinlock_acquire 1 i w.lock.spin_lk ≡ some spin
        → SleepMove i w SleepPc.outside
            (record w { lock = record (w.lock) { spin_lk = spin } })
            SleepPc.waiting
    doze :
        w.lock.locked ≢ 0 → SleepMove i w SleepPc.waiting (sleep lk i (seen_by i w)) SleepPc.waiting
    pass : w.lock.locked ≡ 0 → SleepMove i w SleepPc.waiting w SleepPc.passed
    take :
        {v : Locked}
        → sleeplock_taken process_array i (some (seen_by i w)) ≡ some v
        → SleepMove i w SleepPc.passed v SleepPc.inside
    leave :
        {v : Locked}
        → sleeplock_release 1 lk i (seen_by i w) ≡ some v
        → SleepMove i w SleepPc.inside v SleepPc.outside

  -- From a sleep lock that `sleeplock_init` set up, with every process outside.
  pub data Reached (s : System) (name spin_name : ℕ) : Sleepers → Type 0 where
    start : Reached s name spin_name (record {
      state = record { lock = sleeplock_init name spin_name; system = s };
      pc = λ _. SleepPc.outside;
    })
    later :
        {w : Sleepers} {v : Locked} {p q : SleepPc} (i : ℕ)
        → Reached s name spin_name w
        → w.pc i ≡ p
        → SleepMove i w.state p v q
        → Reached s name spin_name (record { state = v; pc = move_to w.pc i q })

module _ (base lk : ℕ) (s : System) (name spin_name : ℕ) where
  At : Locked → (ℕ → SleepPc) → Type 0
  At v pc = Reached base lk s name spin_name (record { state = v; pc = pc })

  IsIdle : Locked → Type 0
  IsIdle v = v.lock.spin_lk.locked ≡ 0

  module _ (w : Locked) (pc : ℕ → SleepPc) (i : ℕ) (here : At w pc) where
    -- The spin lock of `w`, taken by CPU `i`.
    abbrev spin_taken : SpinLock
    spin_taken = record (w.lock.spin_lk) { locked = 1; cpu = i }

    abbrev entered : Locked
    entered = record w { lock = record (w.lock) { spin_lk = spin_taken } }

    At-entered : IsIdle w → pc i ≡ SleepPc.outside → At entered (move_to pc i SleepPc.waiting)
    unfolding At IsIdle
    At-entered idle e = later i here e (enter (acquire_free 0 i w.lock.spin_lk idle))

    spin_released : (spinlock_release i spin_taken).1.locked ≡ 0
    spin_released = ap (λ r. r.1.locked) (release_own i spin_taken refl)

    -- A process that finds the lock taken goes round the loop and leaves the spin lock free.
    At-doze :
        IsIdle w
        → pc i ≡ SleepPc.outside
        → w.lock.locked ≢ 0
        → (v : Locked) × At v (move_to (move_to pc i SleepPc.waiting) i SleepPc.waiting)
          × IsIdle v
          × (v.lock.locked ≡ w.lock.locked)
    unfolding At IsIdle sleep
    At-doze idle e taken = (
      sleep lk i (seen_by i entered),
      later i (At-entered idle e) (ground arith) (doze taken),
      spin_released,
      refl,
    )

    -- A process that finds the lock free has it four steps later.
    At-taken :
        IsIdle w
        → pc i ≡ SleepPc.outside
        → w.lock.locked ≡ 0
        → (v : Locked) × At v
            (move_to (move_to (move_to pc i SleepPc.waiting) i SleepPc.passed) i SleepPc.inside)
          × IsIdle v
          × (v.lock.locked ≡ 1)
    unfolding At IsIdle sleeplock_taken
    At-taken idle e unlocked = (
      _,
      later i (later i (At-entered idle e) (ground arith) (pass unlocked)) (ground arith)
          (take refl),
      spin_released,
      refl,
    )

    -- The owner gives the lock back.
    At-left :
        IsIdle w
        → pc i ≡ SleepPc.inside
        → (v : Locked) × At v (move_to pc i SleepPc.outside) × (v.lock.locked ≡ 0)
    unfolding At IsIdle sleeplock_release
    At-left idle e = (
      record {
        lock = record (w.lock) { spin_lk = (spinlock_release i spin_taken).1; locked = 0; pid = 0 };
        system = wakeup lk (seen_by i w).system;
      },
      later i here e (leave (rw (acquire_free 0 i w.lock.spin_lk idle, sleeplock_release) refl)),
      refl,
    )

    At-passed : pc i ≡ SleepPc.waiting → w.lock.locked ≡ 0 → At w (move_to pc i SleepPc.passed)
    unfolding At
    At-passed e unlocked = later i here e (pass unlocked)

    At-inside : pc i ≡ SleepPc.passed → (v : Locked) × At v (move_to pc i SleepPc.inside)
    unfolding At sleeplock_taken
    At-inside e = (_, later i here e (take refl))

  -- From a new sleep lock, for any three processes, a state can be reached in which two of them are
  -- between `sleeplock_acquire` and `sleeplock_release`: while the third has the lock, `sleep` gives the
  -- spin lock back and returns, so that both test the flag without it once the third has left.
  pub two_inside :
      (h i j : ℕ)
      → h ≢ i
      → h ≢ j
      → i ≢ j
      → (w : Sleepers) × Reached base lk s name spin_name w
        × (w.pc i ≡ SleepPc.inside)
        × (w.pc j ≡ SleepPc.inside)
  unfolding At IsIdle sleeplock_init spinlock_init
  two_inside h i j hi hj ij =
      let (v1, r1, idle1, locked1) = At-taken _ _ h start refl refl refl in
      let (v2, r2, idle2, same2) = At-doze v1 _ i r1 idle1 (ground arith) (omega arith) in
      let (v3, r3, idle3, same3) = At-doze v2 _ j r2 idle2 (ground arith) (omega arith) in
      let (v4, r4, free4) = At-left v3 _ h r3 idle3 (ground arith) in
      let r5 = At-passed v4 _ i r4 (ground arith) free4 in
      let r6 = At-passed v4 _ j r5 (ground arith) free4 in
      let (v7, r7) = At-inside v4 _ i r6 (ground arith) in
      let (v8, r8) = At-inside v7 _ j r7 (ground arith) in (_, r8, ground arith, ground arith)
