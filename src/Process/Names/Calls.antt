-- ===== src/Process/Names/Calls.antt =====
-- The other calls of kernel/process.c and the pids of the process table.
use skinny_arm.Base.{
  ℕ, suc, ◌+◌, ◌<◌, ◌≡◌, refl, sym, ap, subst, ◌∙◌, Bool, true, false, Bool-cases, inl, inr, Option,
  none, some, List, length, get_or, arith, ◌==◌, ==→eq, ==→ne, map, ◌&&◌, [], ◌∷◌,
}
use skinny_arm.Kalloc.{kfree}
use skinny_arm.Process.{
  ProcessState, Process, no_process, System, entry, put, free_registers, is_runnable, is_waiting,
  scheduler, switch_to, switch_found, search_next, kill_search, kill_found, kill_result,
  kill_process, wake, wakeup,
}
use skinny_arm.Process.Table.{entry-put_self, entry-put_ne, length-put}
use skinny_arm.Process.Schedule.{scheduler-IsNext, IsNext, IsSwitched, requeued}
use skinny_arm.Process.Kill.{kill_process-misses}
use skinny_arm.Process.Wait.{wake_entry}
use skinny_arm.Process.Fork.{is_free}
use skinny_arm.Process.Names.{
  IsNamed, Fits, Touched, Touched-refl, Touched-put, IsNamed-Touched, Fits-free,
}
use skinny_arm.Lock.{Locked, sleep}

runnable-busy : (p : Process) → is_runnable p ≡ true → is_free p ≡ false
runnable-busy p h =
    elim p.state
        as (λ st.
          (elim st as (λ _. Bool) [ ProcessState.runnable ↦ true | _ ↦ false ]) ≡ true
          → (elim st as (λ _. Bool) [ ProcessState.free ↦ true | _ ↦ false ]) ≡ false) [
            | ProcessState.free ↦ λ e. absurd (cc e)
            | _ ↦ λ e. refl
          ]
      h

waiting-busy : (p : Process) → is_waiting p ≡ true → is_free p ≡ false
waiting-busy p h =
    elim p.state
        as (λ st.
          (elim st as (λ _. Bool) [ ProcessState.waiting ↦ true | _ ↦ false ]) ≡ true
          → (elim st as (λ _. Bool) [ ProcessState.free ↦ true | _ ↦ false ]) ≡ false) [
            | ProcessState.free ↦ λ e. absurd (cc e)
            | _ ↦ λ e. refl
          ]
      h

-- The current process becomes runnable or waiting, with the pid that it has.
Fits-current :
    (s : System) (p : Process)
    → IsNamed s
    → p.pid ≡ (entry s s.current).pid
    → is_free p ≡ false
    → Fits s s.current p
Fits-current s p is same busy = record {
  named = λ ne used zero_pid. is.named s.current ne (is.present ne) (sym same ∙ zero_pid);
  unnamed = λ gone. absurd (cc (gone, busy));
  distinct = λ j ne e. same ∙ is.distinct s.current j (λ z. ne (sym z)) (sym same ∙ sym e);
}

-- `scheduler` keeps the table's length.
abbrev Sized : (n : ℕ) → Option System → Type 0
Sized n none = Unit
Sized n (some s') = length s'.process_array ≡ n

switch_found-Sized :
    (prev : ℕ) (s : System) (found : Option ℕ)
    → Sized (length s.process_array) (switch_found prev s found)
unfolding switch_found switch_to
switch_found-Sized prev s none = tt
switch_found-Sized prev s (some j) = length-put prev _ s

scheduler-Sized : (s : System) → Sized (length s.process_array) (scheduler s)
unfolding scheduler
scheduler-Sized s =
    let p : Process = record (entry s s.current) { state = ProcessState.runnable } in
    let s1 = put s.current p s in
    subst
      (λ n. Sized n (switch_found s.current s1 (search_next 2 (s.current + 1) s1.process_array)))
      (length-put s.current p s)
      (switch_found-Sized s.current s1 (search_next 2 (s.current + 1) s1.process_array))

abbrev Named : Option System → Type 0
Named none = Unit
Named (some s') = IsNamed s'

-- The process that is switched to is in use.
switched-busy :
    (s t : System) (j : ℕ)
    → IsNext (requeued s) s.current j
    → IsSwitched s j t
    → is_free (entry t j) ≡ false
switched-busy s t j next sw = elim (Bool-cases (j == s.current)) [
  | inl same ↦ ap (λ i. is_free (entry t i)) (==→eq j s.current same) ∙ ap is_free sw.saved
  | inr other ↦
      let ne = ==→ne j s.current other in
      ap is_free (sw.others j ne ∙ sym (entry-put_ne s.current j _ s ne))
      ∙ runnable-busy (get_or (requeued s) j no_process) next.here
]

pub scheduler-IsNamed : (s s' : System) → IsNamed s → scheduler s ≡ some s' → IsNamed s'
scheduler-IsNamed s s' is run =
    let (j, t, run', next, sw) = scheduler-IsNext s is.size is.current_lt in
    let size : length t.process_array ≡ length s.process_array =
      subst (Sized (length s.process_array)) run' (scheduler-Sized s) in
    subst Named (sym run' ∙ run) (
      IsNamed-Touched s.current s t is (record { size = size; others = sw.others })
        (subst (Fits s s.current) (sym sw.saved) (Fits-current s _ is refl refl))
        (omega (arith, sw.current, next.bound))
        (λ _. ap (λ i. is_free (entry t i)) sw.current ∙ switched-busy s t j next sw))

kill_found-IsNamed : (s : System) → IsNamed s → IsNamed (kill_found 0 s)
unfolding kill_found free_registers
kill_found-IsNamed s is =
    let freed = record s {
      kernel = kfree (entry s 0).trap_frame (kfree (entry s 0).stack_frame s.kernel);
    } in
    let t : Touched 0 s freed = record { size = refl; others = λ i ne. refl } in
    let inside : 0 < length freed.process_array = omega (arith, is.size) in
    IsNamed-Touched 0 s (kill_found 0 s) is (Touched-put 0 _ s freed t)
      (subst (Fits s 0) (sym (entry-put_self 0 _ freed inside)) (Fits-free s 0 _ refl refl))
      is.current_lt (λ ne. ap is_free (entry-put_ne 0 s.current _ freed ne) ∙ is.present ne)

kill_process-found :
    (pid : ℕ) (s : System)
    → ((entry s 0).pid == pid) ≡ true
    → kill_process pid s ≡ (true, kill_found 0 s)
unfolding kill_process kill_search kill_result
kill_process-found pid s same = rw same refl

pub kill_process-IsNamed :
    (pid : ℕ) (s s' : System) (b : Bool) → IsNamed s → kill_process pid s ≡ (b, s') → IsNamed s'
kill_process-IsNamed pid s s' b is run = elim (Bool-cases ((entry s 0).pid == pid)) [
  | inl same ↦
      subst (λ (r : Bool × System). IsNamed r.1) (sym (kill_process-found pid s same) ∙ run)
        (kill_found-IsNamed s is)
  | inr other ↦
      subst (λ (r : Bool × System). IsNamed r.1)
        (sym (kill_process-misses pid s (==→ne _ pid other)) ∙ run) is
]

and_left : (a b : Bool) → (a && b) ≡ true → a ≡ true
and_left true b h = refl
and_left false b h = h

length-wake : (lk : ℕ) (ps : List Process) → length (map (wake lk) ps) ≡ length ps
length-wake lk [] = refl
length-wake lk (p ∷ ps) = ap suc (length-wake lk ps)

wake-kept : (lk : ℕ) (p : Process) → ((wake lk p).pid ≡ p.pid) × (is_free (wake lk p) ≡ is_free p)
unfolding wake
wake-kept lk p = elim (Bool-cases (is_waiting p && p.wait_on == lk)) [
  | inl waits ↦
      rw waits (refl, sym (waiting-busy p (and_left (is_waiting p) (p.wait_on == lk) waits)))
  | inr other ↦ rw other (refl, refl)
]

pub wakeup-IsNamed : (lk : ℕ) (s : System) → IsNamed s → IsNamed (wakeup lk s)
unfolding wakeup
wakeup-IsNamed lk s is =
    let pid_at : (i : ℕ) → (entry (wakeup lk s) i).pid ≡ (entry s i).pid = λ i.
      ap (λ (p : Process). p.pid) (wake_entry lk i s.process_array)
      ∙ (wake-kept lk (entry s i)).0 in
    let free_at : (i : ℕ) → is_free (entry (wakeup lk s) i) ≡ is_free (entry s i) =
      λ i. ap is_free (wake_entry lk i s.process_array) ∙ (wake-kept lk (entry s i)).1 in
    record {
      size = length-wake lk s.process_array ∙ is.size;
      current_lt = is.current_lt;
      present = λ ne. free_at s.current ∙ is.present ne;
      named =
          λ i ne used zero_pid. is.named i ne (sym (free_at i) ∙ used) (sym (pid_at i) ∙ zero_pid);
      unnamed = λ i gone. pid_at i ∙ is.unnamed i (sym (free_at i) ∙ gone);
      distinct = λ i j ne e. pid_at i ∙ is.distinct i j ne (sym (pid_at i) ∙ e ∙ pid_at j);
    }

pub sleep-IsNamed :
    (lk cpu_id : ℕ) (w : Locked) → IsNamed w.system → IsNamed (sleep lk cpu_id w).system
unfolding sleep
sleep-IsNamed lk cpu_id w is =
    let s = w.system in
    let p : Process = record (entry s s.current) { state = ProcessState.waiting; wait_on = lk } in
    let at = entry-put_self s.current p s (omega (arith, is.size, is.current_lt)) in
    IsNamed-Touched s.current s (put s.current p s) is
      (Touched-put s.current p s s (Touched-refl s.current s))
      (subst (Fits s s.current) (sym at) (Fits-current s p is refl refl)) is.current_lt
      (λ _. ap is_free at)
