-- ===== src/Process/Kill.antt =====
-- kernel/process.c's `kill_process`.
use skinny_arm.Base.{
  ℕ, ◌<◌, ◌≡◌, ◌≢◌, refl, sym, true, false, length, get_or-set_self, get_or-set_ne, eq→==, ne→==,
}
use skinny_arm.Kalloc.{kfree}
use skinny_arm.Process.{
  ProcessState, no_process, no_registers, System, entry, free_registers, kill_search, kill_found,
  kill_result, kill_process,
}

-- A pid that the first process does not have: `kill_process` returns -1 and changes nothing, even
-- if another process has it.
pub kill_process-misses :
    (pid : ℕ) (s : System) → (entry s 0).pid ≢ pid → kill_process pid s ≡ (false, s)
unfolding kill_process kill_search kill_result
kill_process-misses pid s ne = rw (ne→== _ pid ne)

-- For the pid of the first process of a table that is not empty `kill_process` returns 0. The entry
-- is free then, with pid 0 and cleared registers, and keeps its other fields; its frames go back to
-- the allocator, the stack frame first; no other entry changes, nor does the current process.
pub kill_process-first :
    (pid : ℕ) (s : System)
    → 0 < length s.process_array
    → (entry s 0).pid ≡ pid
    → (s' : System) × (kill_process pid s ≡ (true, s'))
      × (entry s' 0
          ≡ record (entry s 0) { regs = no_registers; state = ProcessState.free; pid = 0 })
      × ((i : ℕ) → i ≢ 0 → entry s' i ≡ entry s i)
      × (s'.kernel ≡ kfree (entry s 0).trap_frame (kfree (entry s 0).stack_frame s.kernel))
      × (s'.current ≡ s.current)
unfolding kill_process kill_search kill_result kill_found free_registers
kill_process-first pid s some_entry e = (
  kill_found 0 s,
  rw (eq→== _ pid e),
  get_or-set_self s.process_array 0 _ no_process some_entry,
  λ i ne. get_or-set_ne s.process_array 0 i _ no_process (λ z. ne (sym z)),
  refl,
  refl,
)
