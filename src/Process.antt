-- ===== src/Process.antt =====
-- kernel/process.c, with `struct process` of kernel/definitions.h: the process table, and what
-- creates, kills, schedules, suspends and wakes its entries.
pub mod Table
pub mod Pid
pub mod Schedule
pub mod Kill
pub mod Fork
pub mod First
pub mod Wait
pub mod Names
use skinny_arm.Base.{
  ℕ, zero, suc, ◌+◌, ◌-◌, ◌%◌, Bool, true, false, ◌&&◌, Option, none, some, List, [], ◌∷◌, map,
  get_or, set, ltb, ◌==◌, if◌then◌else◌,
}
use skinny_arm.Kalloc.{Kernel, kfree}

-- `PROCCNT`
abbrev pub proccnt : ℕ
proccnt = 64

-- `enum ProcesState`
pub data ProcessState : Type 0 where
  free running runnable waiting killed : ProcessState

-- The registers that a context switch keeps.
pub record Registers : Type 0 where
  pub x19 : ℕ
  pub x20 : ℕ
  pub x21 : ℕ
  pub x22 : ℕ
  pub x23 : ℕ
  pub x24 : ℕ
  pub x25 : ℕ
  pub x26 : ℕ
  pub x27 : ℕ
  pub x28 : ℕ
  pub fp : ℕ
  pub lr : ℕ
  pub sp : ℕ

-- `struct process`; pointers are addresses, 0 is NULL, and `parent` is an index of the table.
pub record Process : Type 0 where
  pub regs : Registers
  pub stack_frame : ℕ
  pub trap_frame : ℕ
  pub parent : Option ℕ
  pub pagetable : ℕ
  pub state : ProcessState
  pub pid : ℕ  -- uint8_t
  pub wait_on : ℕ

-- A static `struct process` before anything is stored in it: all zero.
abbrev pub no_registers : Registers
no_registers = record {
  x19 = 0;
  x20 = 0;
  x21 = 0;
  x22 = 0;
  x23 = 0;
  x24 = 0;
  x25 = 0;
  x26 = 0;
  x27 = 0;
  x28 = 0;
  fp = 0;
  lr = 0;
  sp = 0;
}

abbrev pub no_process : Process
no_process = record {
  regs = no_registers;
  stack_frame = 0;
  trap_frame = 0;
  parent = none;
  pagetable = 0;
  state = ProcessState.free;
  pid = 0;
  wait_on = 0;
}

-- The allocator, `process_array`, the registers of the CPU, `ttbr0_el1`, and the entry that
-- `tpidr_el1` points to: the current process.
pub record System : Type 0 where
  pub kernel : Kernel
  pub process_array : List Process
  pub cpu : Registers
  pub ttbr0 : ℕ
  pub current : ℕ

-- `process_array[i]`
abbrev pub entry : System → ℕ → Process
entry s i = get_or s.process_array i no_process

-- A write to `process_array[i]`
abbrev pub put : ℕ → Process → System → System
put i p s = record s { process_array = set s.process_array i p }

unfoldable pub free_registers : Process → Process
free_registers p = record p { regs = no_registers }

-- The inner `for` of `getpid`: is the pid in the table?
unfoldable pub pid_used : ℕ → List Process → Bool
pid_used pid [] = false
pid_used pid (p ∷ ps) = if p.pid == pid then true else pid_used pid ps

-- `while(1)` on fuel. `pid` is a uint8_t.
unfoldable pub getpid_loop : (fuel pid : ℕ) → List Process → Option ℕ
getpid_loop zero pid ps = none
getpid_loop (suc fuel) pid ps =
    let rest = getpid_loop fuel ((pid + 1) % 256) ps in if pid_used pid ps then rest else some pid

-- The table has 64 entries, so one of 65 pids is not in it.
unfoldable pub getpid : List Process → Option ℕ
getpid ps = getpid_loop 65 1 ps

abbrev pub is_runnable : Process → Bool
is_runnable p = elim p.state [ ProcessState.runnable ↦ true | _ ↦ false ]

-- `for(;next_proc < &process_array[PROCCNT]; next_proc++)` of `scheduler`, with `n` entries left.
unfoldable pub scan : (n i : ℕ) → List Process → Option ℕ
scan zero i ps = none
scan (suc n) i ps =
    let rest = scan n (i + 1) ps in if is_runnable (get_or ps i no_process) then some i else rest

-- `for(;;)` on fuel: behind the table's end the search starts over.
unfoldable pub search_next : (fuel i : ℕ) → List Process → Option ℕ
search_next zero i ps = none
search_next (suc fuel) i ps = elim (scan (proccnt - i) i ps) [
  | some j ↦ some j
  | none ↦ search_next fuel 0 ps
]

-- `switch_to(prev, next)` of kernel/user_context.S: the registers go to `prev` and come from `next`,
-- and `next` becomes the current process, with its page table.
unfoldable pub switch_to : (prev next : ℕ) → System → System
switch_to prev next s =
    let s' = put prev (record (entry s prev) { regs = s.cpu }) s in
    record s' { cpu = (entry s' next).regs; ttbr0 = (entry s' next).pagetable; current = next }

unfoldable pub switch_found : ℕ → System → Option ℕ → Option System
switch_found prev s none = none
switch_found prev s (some j) = some (switch_to prev j s)

-- `scheduler`; `none` only if the fuel of its search runs out.
unfoldable pub scheduler : System → Option System
scheduler s =
    let s' = put s.current (record (entry s s.current) { state = ProcessState.runnable }) s in
    switch_found s.current s' (search_next 2 (s.current + 1) s'.process_array)

-- The `for` of `kill_process` on fuel. Its second test is the assignment `i = PROCCNT - 1`.
unfoldable pub kill_search : (fuel i pid : ℕ) → List Process → Option ℕ
kill_search zero i pid ps = none
kill_search (suc fuel) i pid ps =
    let i' = proccnt - 1 in
    let rest : Option ℕ = elim (ltb (i' + 1) proccnt) [
      | true ↦ kill_search fuel (i' + 1) pid ps
      | false ↦ some i'
    ] in
    if (get_or ps i no_process).pid == pid then some i else if i' == 0 then rest else none

-- Behind the loop: pid, registers, both frames, state.
unfoldable pub kill_found : ℕ → System → System
kill_found i s =
    let p = entry s i in
    let p' = free_registers (record p { pid = 0; state = ProcessState.killed }) in
    put i (record p' { state = ProcessState.free })
      (record s { kernel = kfree p.trap_frame (kfree p.stack_frame s.kernel) })

-- True for 0, false for -1.
unfoldable pub kill_result : System → Option ℕ → Bool × System
kill_result s none = (false, s)
kill_result s (some i) = (true, kill_found i s)

unfoldable pub kill_process : (pid : ℕ) → System → Bool × System
kill_process pid s = kill_result s (kill_search proccnt 0 pid s.process_array)

abbrev pub is_waiting : Process → Bool
is_waiting p = elim p.state [ ProcessState.waiting ↦ true | _ ↦ false ]

-- What `wakeup` does to one entry.
unfoldable pub wake : ℕ → Process → Process
wake lk p =
    if is_waiting p && p.wait_on == lk
    then record p { state = ProcessState.runnable; wait_on = 0 }
    else p

unfoldable pub wakeup : (lk : ℕ) → System → System
wakeup lk s = record s { process_array = map (wake lk) s.process_array }
