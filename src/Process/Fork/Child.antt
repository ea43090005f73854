-- ===== src/Process/Fork/Child.antt =====
-- The child that a successful `sys_fork` of kernel/process.c leaves in the table.
use skinny_arm.Base.{
  ℕ, ◌<◌, ◌≡◌, ◌≢◌, refl, sym, ap, ◌∙◌, true, false, some, List, ◌∷◌, length, get_or, set, set-set,
  arith,
}
use skinny_arm.Str.{strcpy, strcpy-outside}
use skinny_arm.Kalloc.{Kernel, kalloc}
use skinny_arm.Kalloc.FreeList.{Chain-frame, IsFree, kalloc-cons}
use skinny_arm.Process.{
  ProcessState, Process, no_process, System, entry, put, free_registers, getpid,
}
use skinny_arm.Process.Pid.{IsLeastFree, getpid-IsLeastFree, getpid-put}
use skinny_arm.Process.Table.{entry-put_self, entry-put_ne}
use skinny_arm.Process.Fork.{
  is_free, find_free, stack_top, fork_finish, fork_copy, fork_trap, fork_stack, fork_found,
  sys_fork,
}
use skinny_arm.Process.Fork.Search.{IsFirstFree, find_free-IsFirstFree}

-- The entry of a child with stack `f`, trap frame `g` and id `pid`. Its page table and lock are those
-- that the entry had.
abbrev pub child_of : (s : System) (child f g pid : ℕ) → Process
child_of s child f g pid = record (entry s child) {
  regs = record ((entry s s.current).regs) { sp = stack_top f };
  stack_frame = f;
  trap_frame = g;
  parent = some s.current;
  state = ProcessState.runnable;
  pid = pid;
}

pub record IsForked (s : System) (child f g : ℕ) (fs : List ℕ) (pid : ℕ) (s' : System)
    : Type 0 where
  pub born : entry s' child ≡ child_of s child f g pid
  pub named : IsLeastFree pid s.process_array
  pub others : (i : ℕ) → i ≢ child → entry s' i ≡ entry s i
  pub frames : IsFree s'.kernel fs
  pub current : s'.current ≡ s.current

module _ (s : System) (child : ℕ) (bound : child < length s.process_array)
    (ne : s.current ≢ child) where
  self : (p : Process) → get_or (set s.process_array child p) child no_process ≡ p
  self p = entry-put_self child p s bound

  other :
      (p : Process) → get_or (set s.process_array child p) s.current no_process ≡ entry s s.current
  other p = entry-put_ne child s.current p s ne

  -- The entry before its pid is known.
  abbrev unnamed : (f g : ℕ) → Process
  unnamed f g = record (entry s child) {
    regs = record ((entry s s.current).regs) { sp = stack_top f };
    stack_frame = f;
    trap_frame = g;
    state = ProcessState.waiting;
  }

  abbrev after : (f g pid : ℕ) (k : Kernel) → System
  after f g pid k = record s {
    kernel = record k { mem = strcpy (entry s s.current).stack_frame f 4096 k.mem };
    process_array = set s.process_array child (child_of s child f g pid);
  }

  fork_copy_lem :
      (f g pid : ℕ) (k : Kernel)
      → getpid s.process_array ≡ some pid
      → fork_copy child g
          (record (put child
            (record (entry s child) { stack_frame = f; state = ProcessState.waiting })
            s) { kernel = k })
        ≡ some (true, after f g pid k)
  unfolding fork_copy fork_finish free_registers
  fork_copy_lem f g pid k named =
      simp (set-set, self, other, getpid-put child (unnamed f g) s refl ∙ named)

  sys_fork-after :
      (f g pid : ℕ) (k1 k2 : Kernel)
      → find_free 64 0 s.process_array ≡ some child
      → kalloc s.kernel ≡ some (f, k1)
      → kalloc k1 ≡ some (g, k2)
      → getpid s.process_array ≡ some pid
      → sys_fork s ≡ some (true, after f g pid k2)
  unfolding sys_fork fork_found fork_stack fork_trap
  sys_fork-after f g pid k1 k2 found got1 got2 named =
      rw (found, got1, got2) (simp (set-set, self) (fork_copy_lem f g pid k2 named))

-- With a table of 64 entries, a free entry in it, two free frames and a current process that is not
-- free itself, `sys_fork` runs to its end. The first free entry is then a runnable child of the
-- caller, with the two frames, the caller's registers but for `sp`, and the least pid that was not
-- in use; no other entry changes, and the other free frames stay free.
pub sys_fork-IsForked :
    (s : System) (child f g : ℕ) (fs : List ℕ)
    → length s.process_array ≡ 64
    → IsFirstFree s.process_array child
    → is_free (entry s s.current) ≡ false
    → IsFree s.kernel (f ∷ g ∷ fs)
    → (pid : ℕ) × (s' : System) × (sys_fork s ≡ some (true, s')) × IsForked s child f g fs pid s'
sys_fork-IsForked s child f g fs size first busy free =
    let (pid, named, least) = getpid-IsLeastFree s.process_array (omega arith) in
    let (k1, got1, taken1) = kalloc-cons s.kernel f (g ∷ fs) free in
    let (k2, got2, taken2) = kalloc-cons k1 g fs taken1.free in
    let bound : child < length s.process_array = omega (arith, first.bound) in
    let ne : s.current ≢ child =
      λ e. cc (sym busy ∙ ap (λ i. is_free (entry s i)) e ∙ first.here) in
    (
      pid,
      after s child bound ne f g pid k2,
      sys_fork-after s child bound ne f g pid k1 k2
          (find_free-IsFirstFree s.process_array child 64 0 first (omega arith) refl) got1 got2
          named,
      record {
        born = self s child bound ne (child_of s child f g pid);
        named = least;
        others = λ i other. entry-put_ne child i (child_of s child f g pid) s other;
        frames = record {
          chain =
              Chain-frame k2.mem _ f k2.page_frame_linked_list fs taken2.free.chain free.apart.0.1
                (λ x out.
                  strcpy-outside (entry s s.current).stack_frame f 4096 k2.mem x (ground arith));
          apart = taken2.free.apart;
          small = taken2.free.small;
        };
        current = refl;
      },
    )
