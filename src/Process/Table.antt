-- ===== src/Process/Table.antt =====
-- Reads and writes of the process table.
use skinny_arm.Base.{ℕ, ◌<◌, ◌≡◌, ◌≢◌, sym, length, length-set, get_or-set_self, get_or-set_ne}
use skinny_arm.Process.{Process, no_process, System, entry, put}

pub entry-put_self :
    (i : ℕ) (p : Process) (s : System) → i < length s.process_array → entry (put i p s) i ≡ p
entry-put_self i p s h = get_or-set_self s.process_array i p no_process h

pub entry-put_ne : (i j : ℕ) (p : Process) (s : System) → j ≢ i → entry (put i p s) j ≡ entry s j
entry-put_ne i j p s ne = get_or-set_ne s.process_array i j p no_process (λ e. ne (sym e))

pub length-put :
    (i : ℕ) (p : Process) (s : System) → length (put i p s).process_array ≡ length s.process_array
length-put i p s = length-set s.process_array i p
