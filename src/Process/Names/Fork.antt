-- ===== src/Process/Names/Fork.antt =====
-- kernel/process.c's `sys_fork` and the pids of the process table, however it ends.
use skinny_arm.Base.{
  ℕ, zero, suc, ◌+◌, ◌<◌, ◌≡◌, ◌≢◌, refl, sym, ap, subst, ◌∙◌, Bool, true, false, Bool-cases, inl,
  inr, Option, none, some, List, length, get_or, arith,
}
use skinny_arm.Kalloc.{Kernel}
use skinny_arm.Process.{Process, no_process, System, entry, put, free_registers, getpid}
use skinny_arm.Process.Pid.{getpid-IsLeastFree}
use skinny_arm.Process.Table.{entry-put_self}
use skinny_arm.Process.Fork.{
  is_free, find_free, fork_finish, fork_copy, fork_trap, fork_stack, fork_found, sys_fork,
}
use skinny_arm.Process.Names.{
  IsNamed, Fits, Touched, Touched-refl, Touched-put, IsNamed-Touched, Fits-free, Fits-new,
  unused-ne,
}

-- `sys_fork` ends with a table whose pids are in order.
abbrev Good : Option (Bool × System) → Type 0
Good none = Unit
Good (some (b, s')) = IsNamed s'

-- What the search finds is free, and in the table.
abbrev Found : (hi : ℕ) → List Process → Option ℕ → Type 0
Found hi ps none = Unit
Found hi ps (some c) = (is_free (get_or ps c no_process) ≡ true) × (c < hi)

find_free-Found : (n i hi : ℕ) (ps : List Process) → i + n ≡ hi → Found hi ps (find_free n i ps)
unfolding find_free
find_free-Found zero i hi ps e = tt
find_free-Found (suc n) i hi ps e = elim (Bool-cases (is_free (get_or ps i no_process))) [
  | inl here ↦ rw here (here, omega arith)
  | inr busy ↦ rw busy (find_free-Found n (i + 1) hi ps (omega arith))
]

-- The entry of the child while `sys_fork` fills it in.
record Draft (c : ℕ) (s s' : System) : Type 0 where
  touched : Touched c s s'
  current : s'.current ≡ s.current
  pid : (entry s' c).pid ≡ (entry s c).pid

module _ (c : ℕ) (s : System) (is : IsNamed s) (gone : is_free (entry s c) ≡ true)
    (lt : c < 64) where
  Draft-inside : (s' : System) → Draft c s s' → c < length s'.process_array
  Draft-inside s' d = omega (arith, d.touched.size, is.size)

  Draft-put :
      (s' : System) (p : Process) → Draft c s s' → p.pid ≡ (entry s' c).pid → Draft c s (put c p s')
  Draft-put s' p d same = record {
    touched = Touched-put c p s s' d.touched;
    current = d.current;
    pid = ap (λ (q : Process). q.pid) (entry-put_self c p s' (Draft-inside s' d)) ∙ same ∙ d.pid;
  }

  Draft-kernel : (s' : System) (k : Kernel) → Draft c s s' → Draft c s (record s' { kernel = k })
  Draft-kernel s' k d = record {
    touched = record { size = d.touched.size; others = d.touched.others };
    current = d.current;
    pid = d.pid;
  }

  -- The child is not the current process, unless this is the first entry.
  present-kept :
      (s' : System)
      → Touched c s s'
      → s'.current ≡ s.current
      → s'.current ≢ 0
      → is_free (entry s' s'.current) ≡ false
  present-kept s' t e ne =
      let busy = is.present (λ z. ne (e ∙ z)) in
      let off : s.current ≢ c = λ z. cc (sym busy ∙ ap (λ l. is_free (entry s l)) z ∙ gone) in
      ap (λ l. is_free (entry s' l)) e ∙ ap is_free (t.others s.current off) ∙ busy

  -- It fails, and the entry is free again.
  freed-IsNamed :
      (s' : System) (p : Process)
      → Draft c s s'
      → p.pid ≡ (entry s' c).pid
      → is_free p ≡ true
      → IsNamed (put c p s')
  freed-IsNamed s' p d same free =
      let d' = Draft-put s' p d same in
      let zero_pid : p.pid ≡ 0 = same ∙ d.pid ∙ is.unnamed c gone in
      IsNamed-Touched c s (put c p s') is d'.touched
        (subst (Fits s c) (sym (entry-put_self c p s' (Draft-inside s' d)))
          (Fits-free s c p zero_pid free))
        (omega (arith, d.current, is.current_lt)) (present-kept (put c p s') d'.touched d.current)

  -- It succeeds, with a pid that no entry has.
  entered-IsNamed :
      (s' : System) (p : Process)
      → Draft c s s'
      → is_free p ≡ false
      → p.pid ≢ 0
      → ((j : ℕ) → (entry s' j).pid ≢ p.pid)
      → IsNamed (put c p s')
  entered-IsNamed s' p d used ne new =
      let t = Touched-put c p s s' d.touched in
      IsNamed-Touched c s (put c p s') is t
        (subst (Fits s c) (sym (entry-put_self c p s' (Draft-inside s' d))) (
          Fits-new s c p ne used
            λ j off e. new j (ap (λ (q : Process). q.pid) (d.touched.others j off) ∙ e)))
        (omega (arith, d.current, is.current_lt)) (present-kept (put c p s') t d.current)

  -- Behind `getpid`.
  fork_finish-Good :
      (s' : System) → Draft c s s' → Good (fork_finish c s' (getpid s'.process_array))
  unfolding fork_finish
  fork_finish-Good s' d =
      let (pid, run, least) =
        getpid-IsLeastFree s'.process_array (omega (arith, d.touched.size, is.size)) in
      let ne : pid ≢ 0 = omega (arith, least.positive) in
      rw run
        (entered-IsNamed s' _ d refl ne (λ j. unused-ne pid j s'.process_array least.unused ne))

  fork_copy-Good : (g : ℕ) (s' : System) → Draft c s s' → Good (fork_copy c g s')
  unfolding fork_copy free_registers
  fork_copy-Good g s' d =
      let d1 = Draft-put s' _ d refl in
      let d2 = Draft-kernel _ _ d1 in fork_finish-Good _ (Draft-put _ _ d2 refl)

  fork_trap-Good :
      (f : ℕ) (s' : System) (got : Option (ℕ × Kernel)) → Draft c s s' → Good (fork_trap c f s' got)
  unfolding fork_trap
  fork_trap-Good f s' none d = freed-IsNamed _ _ (Draft-kernel s' _ d) refl refl
  fork_trap-Good f s' (some (g, k)) d = fork_copy-Good g _ (Draft-kernel s' k d)

  fork_stack-Good :
      (s' : System) (got : Option (ℕ × Kernel)) → Draft c s s' → Good (fork_stack c s' got)
  unfolding fork_stack
  fork_stack-Good s' none d = freed-IsNamed s' _ d refl refl
  fork_stack-Good s' (some (f, k)) d =
      let d' = Draft-put (record s' { kernel = k }) _ (Draft-kernel s' k d) refl in
      fork_trap-Good f _ _ d'

fork_found-Good :
    (s : System) (found : Option ℕ)
    → IsNamed s
    → Found 64 s.process_array found
    → Good (fork_found s found)
unfolding fork_found
fork_found-Good s none is h = is
fork_found-Good s (some c) is (gone, lt) =
    let start : Draft c s s = record { touched = Touched-refl c s; current = refl; pid = refl } in
    fork_stack-Good c s is gone lt _ _ (Draft-put c s is gone lt s _ start refl)

-- `sys_fork` keeps the pids in order, however it ends.
pub sys_fork-IsNamed :
    (s s' : System) (b : Bool) → IsNamed s → sys_fork s ≡ some (b, s') → IsNamed s'
unfolding sys_fork
sys_fork-IsNamed s s' b is run = subst Good run (
    fork_found-Good s (find_free 64 0 s.process_array) is
      (find_free-Found 64 0 64 s.process_array refl))
