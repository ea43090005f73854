-- ===== src/Process/Fork.antt =====
-- kernel/process.c's `sys_fork`, lines 172 to 232.
pub mod Search
pub mod Errors
pub mod Child
use skinny_arm.Base.{
  ℕ, zero, suc, ◌+◌, ◌-◌, ◌*◌, Bool, true, false, Option, none, some, List, get_or, set,
  if◌then◌else◌,
}
use skinny_arm.Kalloc.{page_size, Kernel, kalloc, kfree}
use skinny_arm.Str.{strcpy}
use skinny_arm.Process.{
  proccnt, ProcessState, Registers, Process, no_process, System, entry, put, free_registers, getpid,
}

abbrev pub is_free : Process → Bool
is_free p = elim p.state [ ProcessState.free ↦ true | _ ↦ false ]

-- The `for` of `sys_fork`, with `n` entries left: the first free entry.
unfoldable pub find_free : (n i : ℕ) → List Process → Option ℕ
find_free zero i ps = none
find_free (suc n) i ps =
    let rest = find_free n (i + 1) ps in if is_free (get_or ps i no_process) then some i else rest

-- `&(proc->stack_frame[PageSize-1])`: `stack_frame` points to frames of `PageSize` bytes.
unfoldable pub stack_top : ℕ → ℕ
stack_top stack_frame = stack_frame + (page_size - 1) * page_size

-- Registers of the caller, without `sp`.
abbrev pub copy_registers : (child caller : Registers) → Registers
copy_registers child caller = record caller { sp = child.sp }

-- Behind `proc->pid = getpid()`.
unfoldable pub fork_finish : (child : ℕ) → System → Option ℕ → Option (Bool × System)
fork_finish child s none = none
fork_finish child s (some pid) = some (
  true,
  put child
      (record (entry s child) { pid = pid; parent = some s.current; state = ProcessState.runnable })
      s,
)

-- With both frames: registers, stack, and the rest of the entry.
unfoldable pub fork_copy : (child trap_frame : ℕ) → System → Option (Bool × System)
fork_copy child trap_frame s =
    let p = free_registers (record (entry s child) { trap_frame = trap_frame }) in
    let s1 = put child (record p { regs = record (p.regs) { sp = stack_top p.stack_frame } }) s in
    let m =
      strcpy (entry s1 s1.current).stack_frame (entry s1 child).stack_frame page_size
        s1.kernel.mem in
    let s2 = record s1 { kernel = record (s1.kernel) { mem = m } } in
    let q = record (entry s2 child) { trap_frame = trap_frame } in
    let s3 = put child (record q { regs = copy_registers q.regs (entry s2 s2.current).regs }) s2 in
    fork_finish child s3 (getpid s3.process_array)

-- `if(kalloc(&trap_frame) == -1)`
unfoldable pub fork_trap :
    (child stack_frame : ℕ) → System → Option (ℕ × Kernel) → Option (Bool × System)
fork_trap child stack_frame s none = some (
  false,
  put child (record (entry s child) { state = ProcessState.free; stack_frame = 0 })
      (record s { kernel = kfree stack_frame s.kernel }),
)
fork_trap child stack_frame s (some (trap_frame, k)) =
    fork_copy child trap_frame (record s { kernel = k })

-- `if(kalloc(&stack_frame) == -1)`
unfoldable pub fork_stack : (child : ℕ) → System → Option (ℕ × Kernel) → Option (Bool × System)
fork_stack child s none =
    some (false, put child (record (entry s child) { state = ProcessState.free }) s)
fork_stack child s (some (stack_frame, k)) =
    let s' =
      put child (record (entry s child) { stack_frame = stack_frame }) (record s { kernel = k }) in
    fork_trap child stack_frame s' (kalloc s'.kernel)

unfoldable pub fork_found : System → Option ℕ → Option (Bool × System)
fork_found s none = some (false, s)
fork_found s (some child) =
    let s' = put child (record (entry s child) { state = ProcessState.waiting }) s in
    fork_stack child s' (kalloc s'.kernel)

-- `sys_fork`: false for -1, and true where it ends without a `return`. `none` only if the fuel of
-- `getpid` runs out.
unfoldable pub sys_fork : System → Option (Bool × System)
sys_fork s = fork_found s (find_free proccnt 0 s.process_array)
