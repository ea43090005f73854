-- ===== src/Process/Names/Run.antt =====
-- kernel/process.c from the first process on: any sequence of calls that change the process table.
use skinny_arm.Base.{
  ℕ, ◌<◌, ◌≡◌, ◌≢◌, refl, sym, ap, subst, ◌∙◌, Bool, false, Bool-cases, inl, inr, some, length,
  arith, ◌==◌, ==→eq, ==→ne,
}
use skinny_arm.Process.{
  ProcessState, Process, no_process, System, entry, put, free_registers, scheduler, kill_process,
  wakeup,
}
use skinny_arm.Process.Table.{entry-put_self, length-put}
use skinny_arm.Process.First.{kalloc_untested, first_entry, create_first_process}
use skinny_arm.Process.Fork.{is_free, sys_fork}
use skinny_arm.Process.Names.{IsNamed, Fits, Touched-refl, Touched-put, IsNamed-Touched}
use skinny_arm.Process.Names.Fork.{sys_fork-IsNamed}
use skinny_arm.Process.Names.Calls.{
  scheduler-IsNamed, kill_process-IsNamed, wakeup-IsNamed, sleep-IsNamed,
}
use skinny_arm.Lock.{SleepLock, sleep}

-- A table that nothing has been stored in.
pub record IsFresh (s : System) : Type 0 where
  pub size : length s.process_array ≡ 64
  pub empty : (i : ℕ) → entry s i ≡ no_process

-- A table without processes is in order, whatever the current entry is set to.
IsFresh-IsNamed : (s : System) → IsFresh s → IsNamed (record s { current = 0 })
IsFresh-IsNamed s fresh = record {
  size = fresh.size;
  current_lt = omega arith;
  present = λ ne. absurd (ne refl);
  named = λ i ne used. absurd (cc (sym (ap is_free (fresh.empty i)) ∙ used));
  unnamed = λ i gone. pid_at i;
  distinct = λ i j ne e. pid_at i;
}
  where
    pid_at : (i : ℕ) → (entry s i).pid ≡ 0
    pid_at i = ap (λ (p : Process). p.pid) (fresh.empty i)

create_first_process-IsNamed :
    (stack_frame trap_frame : ℕ) (s : System)
    → IsFresh s
    → IsNamed (create_first_process stack_frame trap_frame s).0
unfolding create_first_process free_registers
create_first_process-IsNamed f g s fresh =
    let waits : Process = record (entry s 0) { state = ProcessState.waiting } in
    let s1 = put 0 waits s in
    let (_, k1) = kalloc_untested f s1.kernel in
    let (trap, k2) = kalloc_untested g k1 in
    let s2 : System = record s1 { kernel = k2 } in
    let p = first_entry trap (entry s2 0) in
    let inside : 0 < length s2.process_array = omega (arith, fresh.size, length-put 0 waits s) in
    let start : System = record s { current = 0 } in
    let touched =
      Touched-put 0 p start (put 0 waits start)
        (Touched-put 0 waits start start (Touched-refl 0 start)) in
    IsNamed-Touched 0 start _ (IsFresh-IsNamed s fresh)
      (record { size = touched.size; others = touched.others })
      (subst (Fits start 0) (sym (entry-put_self 0 p s2 inside)) (record {
        named = λ ne. absurd (ne refl);
        unnamed = λ gone. absurd (cc gone);
        distinct = λ _ _ _. refl;
      }))
      (omega arith) (λ ne. absurd (ne refl))

-- A call that changes the process table: `sys_fork`, `scheduler`, `kill_process`, `wakeup`, and `sleep` on a
-- lock, each however it ends.
pub data Call (s : System) : System → Type 0 where
  forked : (b : Bool) {s' : System} → sys_fork s ≡ some (b, s') → Call s s'
  scheduled : {s' : System} → scheduler s ≡ some s' → Call s s'
  killed : (pid : ℕ) (b : Bool) {s' : System} → kill_process pid s ≡ (b, s') → Call s s'
  woken : (lk : ℕ) → Call s (wakeup lk s)
  slept :
      (lk cpu_id : ℕ) (lock : SleepLock)
      → Call s (sleep lk cpu_id (record { lock = lock; system = s })).system

-- From `create_first_process` in a table that nothing has been stored in.
pub data Reach : System → Type 0 where
  created :
      (stack_frame trap_frame : ℕ) {s : System}
      → IsFresh s
      → Reach (create_first_process stack_frame trap_frame s).0
  called : {s s' : System} → Reach s → Call s s' → Reach s'

Call-IsNamed : {s s' : System} → IsNamed s → Call s s' → IsNamed s'
Call-IsNamed is (forked b run) = sys_fork-IsNamed _ _ b is run
Call-IsNamed is (scheduled run) = scheduler-IsNamed _ _ is run
Call-IsNamed is (killed pid b run) = kill_process-IsNamed pid _ _ b is run
Call-IsNamed is (woken lk) = wakeup-IsNamed lk _ is
Call-IsNamed is (slept lk cpu_id lock) = sleep-IsNamed lk cpu_id _ is

-- After `create_first_process` in a table that nothing has been stored in and any sequence of calls of
-- `sys_fork`, `scheduler`, `kill_process`, `wakeup` and `sleep`, however they end: the table has 64 entries, the
-- current process is one of them and in use, unless it is the first; each entry in use but for the first has a
-- pid that is not 0, each free entry has pid 0, and no other pid stands twice.
pub Reach-IsNamed : {s : System} → Reach s → IsNamed s
Reach-IsNamed (created f g fresh) = create_first_process-IsNamed f g _ fresh
Reach-IsNamed (called reach call) = Call-IsNamed (Reach-IsNamed reach) call

-- In each state that these calls reach, two different entries that are in use have different pids.
pub used-distinct :
    (s : System) (i j : ℕ)
    → Reach s
    → i ≢ j
    → is_free (entry s i) ≡ false
    → is_free (entry s j) ≡ false
    → (entry s i).pid ≢ (entry s j).pid
used-distinct s i j reach ne used used' e =
    let is = Reach-IsNamed reach in
    let zero_pid = is.distinct i j ne e in
    elim (Bool-cases (i == 0)) [
      | inr later ↦ is.named i (==→ne i 0 later) used zero_pid
      | inl first ↦ is.named j (λ z. ne (==→eq i 0 first ∙ sym z)) used' (sym e ∙ zero_pid)
    ]
