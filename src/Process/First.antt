-- ===== src/Process/First.antt =====
-- kernel/process.c's `create_first_process`, lines 55 to 88, up to its jump to the user's code.
pub mod Killed
use skinny_arm.Base.{ℕ, ◌<◌, ◌≡◌, ◌≢◌, refl, none, some, List, ◌∷◌, length, get_or, set, set-set}
use skinny_arm.Kalloc.{Kernel, kalloc}
use skinny_arm.Kalloc.FreeList.{IsFree, kalloc-cons}
use skinny_arm.Process.{
  ProcessState, Process, no_process, no_registers, System, entry, put, free_registers,
}
use skinny_arm.Process.Table.{entry-put_self, entry-put_ne}
use skinny_arm.Process.Fork.{stack_top}

-- `kalloc(&frame);` without a test: where it returns -1 the variable keeps its value.
unfoldable pub kalloc_untested : (frame : ℕ) → Kernel → ℕ × Kernel
kalloc_untested frame k = elim (kalloc k) [ none ↦ (frame, k) | some r ↦ r ]

-- Lines 67 to 71.
abbrev pub first_entry : (trap_frame : ℕ) → Process → Process
first_entry trap_frame p =
    let q = free_registers p in
    record q {
      regs = record (q.regs) { sp = stack_top q.stack_frame };
      trap_frame = trap_frame;
      state = ProcessState.runnable;
      pid = 0;
    }

-- The system and the stack pointer that `user_start` gets. `stack_frame` and `trap_frame` are the values
-- of the two local variables, which the source does not set.
unfoldable pub create_first_process : (stack_frame trap_frame : ℕ) → System → System × ℕ
create_first_process stack_frame trap_frame s =
    let s1 = put 0 (record (entry s 0) { state = ProcessState.waiting }) s in
    let (stack, k1) = kalloc_untested stack_frame s1.kernel in
    let (trap, k2) = kalloc_untested trap_frame k1 in
    let s2 = record s1 { kernel = k2 } in
    let s3 = put 0 (first_entry trap (entry s2 0)) s2 in
    (record s3 { ttbr0 = (entry s3 0).pagetable; current = 0 }, (entry s3 0).regs.sp)

-- The first process, with trap frame `g`; its stack pointer comes from the stack frame that the entry
-- had before.
abbrev pub first_process : System → (g : ℕ) → Process
first_process s g = record (entry s 0) {
  regs = record no_registers { sp = stack_top (entry s 0).stack_frame };
  trap_frame = g;
  state = ProcessState.runnable;
  pid = 0;
}

pub record IsCreated (s : System) (g : ℕ) (fs : List ℕ) (s' : System) (sp : ℕ) : Type 0 where
  pub born : entry s' 0 ≡ first_process s g
  pub stack : sp ≡ stack_top (entry s 0).stack_frame
  pub others : (i : ℕ) → i ≢ 0 → entry s' i ≡ entry s i
  pub table : s'.ttbr0 ≡ (entry s 0).pagetable
  pub current : s'.current ≡ 0
  pub frames : IsFree s'.kernel fs

kalloc_untested-some :
    (frame f : ℕ) (k k' : Kernel) → kalloc k ≡ some (f, k') → kalloc_untested frame k ≡ (f, k')
unfolding kalloc_untested
kalloc_untested-some frame f k k' got = rw (got, kalloc_untested) refl

abbrev after : (s : System) (g : ℕ) (k : Kernel) → System
after s g k = record s {
  kernel = k;
  process_array = set s.process_array 0 (first_process s g);
  ttbr0 = (entry s 0).pagetable;
  current = 0;
}

create_first_process-after :
    (stack_frame trap_frame : ℕ) (s : System) (f g : ℕ) (k1 k2 : Kernel)
    → 0 < length s.process_array
    → kalloc s.kernel ≡ some (f, k1)
    → kalloc k1 ≡ some (g, k2)
    → create_first_process stack_frame trap_frame s
      ≡ (after s g k2, stack_top (entry s 0).stack_frame)
unfolding create_first_process free_registers
create_first_process-after stack_frame trap_frame s f g k1 k2 bound got1 got2 =
    simp
      (
        kalloc_untested-some stack_frame f s.kernel k1 got1,
        kalloc_untested-some trap_frame g k1 k2 got2,
        set-set,
        self,
      )
      refl
  where
    self : (p : Process) → get_or (set s.process_array 0 p) 0 no_process ≡ p
    self p = entry-put_self 0 p s bound

-- With two free frames, `create_first_process` takes both and makes the table's first entry the current
-- and runnable process with pid 0, the second frame as its trap frame, and its own page table; no other
-- entry changes, and the other free frames stay free. The first frame goes nowhere: the process starts
-- with a stack pointer that is computed from the stack frame that its entry had before.
pub create_first_process-IsCreated :
    (stack_frame trap_frame : ℕ) (s : System) (f g : ℕ) (fs : List ℕ)
    → 0 < length s.process_array
    → IsFree s.kernel (f ∷ g ∷ fs)
    → let (s', sp) = create_first_process stack_frame trap_frame s in IsCreated s g fs s' sp
create_first_process-IsCreated stack_frame trap_frame s f g fs bound free =
    let (k1, got1, taken1) = kalloc-cons s.kernel f (g ∷ fs) free in
    let (k2, got2, taken2) = kalloc-cons k1 g fs taken1.free in
    rw (create_first_process-after stack_frame trap_frame s f g k1 k2 bound got1 got2) (record {
      born = entry-put_self 0 (first_process s g) s bound;
      stack = refl;
      others = λ i ne. entry-put_ne 0 i (first_process s g) s ne;
      table = refl;
      current = refl;
      frames = taken2.free;
    })
