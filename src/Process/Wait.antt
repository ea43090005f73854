-- ===== src/Process/Wait.antt =====
-- kernel/process.c's `wakeup`.
use skinny_arm.Base.{
  ℕ, zero, suc, ◌≡◌, refl, ◌∙◌, true, false, ◌&&◌, List, [], ◌∷◌, map, get_or, ◌==◌, Bool-cases,
  inl, inr,
}
use skinny_arm.Process.{ProcessState, Process, no_process, System, entry, is_waiting, wake, wakeup}

pub wake_entry :
    (lk i : ℕ) (ps : List Process)
    → get_or (map (wake lk) ps) i no_process ≡ wake lk (get_or ps i no_process)
unfolding wake
wake_entry lk i [] = refl
wake_entry lk zero (p ∷ ps) = refl
wake_entry lk (suc i) (p ∷ ps) = wake_entry lk i ps

wake-not_waiting :
    (lk : ℕ) (p : Process) → (is_waiting (wake lk p) && (wake lk p).wait_on == lk) ≡ false
unfolding wake
wake-not_waiting lk p = elim (Bool-cases (is_waiting p && p.wait_on == lk)) [
  | inl waits ↦ rw waits
  | inr other ↦ rw (other, other)
]

-- `wakeup` makes every process that waits on the lock runnable and clears its `wait_on`; it changes
-- no other process, and afterwards none waits on that lock.
wakeup_lem :
    (lk i : ℕ) (s : System)
    → ((is_waiting (entry s i) && (entry s i).wait_on == lk) ≡ true
        → entry (wakeup lk s) i ≡ record (entry s i) { state = ProcessState.runnable; wait_on = 0 })
      × ((is_waiting (entry s i) && (entry s i).wait_on == lk) ≡ false
          → entry (wakeup lk s) i ≡ entry s i)
      × ((is_waiting (entry (wakeup lk s) i) && (entry (wakeup lk s) i).wait_on == lk) ≡ false)
unfolding wakeup wake
wakeup_lem lk i s = (
  λ waits. wake_entry lk i s.process_array ∙ rw waits,
  λ other. wake_entry lk i s.process_array ∙ rw other,
  rw (wake_entry lk i s.process_array) (wake-not_waiting lk (entry s i)),
)
