-- ===== src/Process/Fork/Search.antt =====
-- The search of `sys_fork` for a free entry of the process table.
use skinny_arm.Base.{
  ℕ, zero, suc, ◌+◌, ◌≤◌, ◌<◌, ◌≡◌, inl, inr, refl, true, false, Bool-cases, none, some, List,
  get_or, arith, ◌==◌, ==→eq, ==→ne,
}
use skinny_arm.Process.{Process, no_process}
use skinny_arm.Process.Fork.{is_free, find_free}

-- `child` is the first free entry of the table.
pub record IsFirstFree (ps : List Process) (child : ℕ) : Type 0 where
  pub here : is_free (get_or ps child no_process) ≡ true
  pub bound : child < 64
  pub before : (i : ℕ) → i < child → is_free (get_or ps i no_process) ≡ false

pub find_free-IsFirstFree :
    (ps : List Process) (child : ℕ) (n i : ℕ)
    → IsFirstFree ps child
    → i ≤ child
    → i + n ≡ 64
    → find_free n i ps ≡ some child
unfolding find_free
find_free-IsFirstFree ps child zero i first le total = absurd (omega (arith, first.bound))
find_free-IsFirstFree ps child (suc n) i first le total = elim (Bool-cases (i == child)) [
  | inl same ↦ rw (==→eq i child same, first.here)
  | inr other ↦
      let lt : i < child = omega (arith, ==→ne i child other) in
      rw (first.before i lt)
        (find_free-IsFirstFree ps child n (i + 1) first (omega arith) (omega arith))
]

pub find_free-none :
    (ps : List Process) (n i : ℕ)
    → ((j : ℕ) → j < 64 → is_free (get_or ps j no_process) ≡ false)
    → i + n ≡ 64
    → find_free n i ps ≡ none
unfolding find_free
find_free-none ps zero i full total = refl
find_free-none ps (suc n) i full total =
    rw (full i (omega arith), find_free-none ps n (i + 1) full (omega arith))
