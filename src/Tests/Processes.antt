-- ===== src/Tests/Processes.antt =====
-- The process table at concrete inputs.
use skinny_arm.Base.{
  ℕ, zero, suc, ◌<◌, ◌≡◌, refl, true, false, some, List, [], ◌∷◌, get_or, arith, ◌==◌,
  if◌then◌else◌,
}
use skinny_arm.Memory.{Mem, store8}
use skinny_arm.Str.{IsBytes, strcpy, strcpy_copies_first}
use skinny_arm.Kalloc.FreeList.{IsFree}
use skinny_arm.Process.{
  ProcessState, Process, no_process, no_registers, System, getpid, scheduler, kill_process,
}
use skinny_arm.Process.Pid.{IsLeastFree, getpid-IsLeastFree}
use skinny_arm.Process.Schedule.{IsNext, IsSwitched, requeued, scheduler-IsNext}
use skinny_arm.Process.Kill.{kill_process-misses}
use skinny_arm.Process.First.{IsCreated, create_first_process, create_first_process-IsCreated}
use skinny_arm.Process.Fork.{is_free, sys_fork}
use skinny_arm.Process.Fork.Search.{IsFirstFree}
use skinny_arm.Process.Fork.Errors.{IsUndone, sys_fork-out_of_memory}
use skinny_arm.Process.Fork.Child.{IsForked, sys_fork-IsForked}
use skinny_arm.Tests.Boot.{boot, boot-IsFree}

abbrev pub copies : ℕ → Process → List Process
copies zero p = []
copies (suc n) p = p ∷ copies n p

pub copies-get : (n i : ℕ) (p d : Process) → i < n → get_or (copies n p) i d ≡ p
copies-get zero i p d h = absurd (omega arith)
copies-get (suc n) zero p d h = refl
copies-get (suc n) (suc i) p d h = copies-get n i p d (omega arith)

abbrev shell : Process
shell = record no_process {
  state = ProcessState.running;
  pid = 1;
  stack_frame = 0x8000;
  trap_frame = 0x9000;
}

abbrev editor : Process
editor = record no_process { state = ProcessState.waiting; pid = 2; wait_on = 0x500 }

-- Two processes, the first of them at work, and 62 free entries.
abbrev pub two : System
two = record {
  kernel = boot;
  process_array = shell ∷ editor ∷ copies 62 no_process;
  cpu = no_registers;
  ttbr0 = 0;
  current = 0;
}

abbrev full : System
full = record two { process_array = copies 64 shell }

abbrev empty : System
empty = record two { kernel = record boot { page_frame_linked_list = 0 } }

two-IsFirstFree : IsFirstFree two.process_array 2
two-IsFirstFree = record { here = refl; bound = omega arith; before = below }
  where
    below : (i : ℕ) → i < 2 → is_free (get_or two.process_array i no_process) ≡ false
    below zero h = refl
    below (suc zero) h = refl
    below (suc (suc i)) h = absurd (omega arith)

getpid-IsLeastFree_example :
    (pid : ℕ) × (getpid two.process_array ≡ some pid) × IsLeastFree pid two.process_array
getpid-IsLeastFree_example = getpid-IsLeastFree two.process_array (omega arith)

scheduler-IsNext_example :
    (j : ℕ) × (s' : System) × (scheduler two ≡ some s')
    × IsNext (requeued two) 0 j
    × IsSwitched two j s'
scheduler-IsNext_example = scheduler-IsNext two refl (omega arith)

kill_process-misses_example : kill_process 2 two ≡ (false, two)
kill_process-misses_example = kill_process-misses 2 two (omega arith)

no_frames : IsFree empty.kernel []
no_frames = record { chain = refl; apart = tt; small = tt }

sys_fork-out_of_memory_example :
    (s' : System) × (sys_fork empty ≡ some (false, s')) × IsUndone empty 2 [] s'
sys_fork-out_of_memory_example =
    sys_fork-out_of_memory empty 2 [] refl two-IsFirstFree no_frames (omega arith)

sys_fork-IsForked_example :
    (pid : ℕ) × (s' : System) × (sys_fork two ≡ some (true, s'))
    × IsForked two 2 0x1000 0x2000 (0x3000 ∷ 0x4000 ∷ []) pid s'
sys_fork-IsForked_example =
    sys_fork-IsForked two 2 0x1000 0x2000 (0x3000 ∷ 0x4000 ∷ []) refl two-IsFirstFree refl
      boot-IsFree

abbrev text_mem : Mem
text_mem = store8 (store8 (λ _. 0) 0x100 65) 0x101 66

text_mem-IsBytes : IsBytes text_mem
unfolding store8
text_mem-IsBytes x = ground arith

strcpy_copies_first_example :
    strcpy 0x100 0x200 2 text_mem 0x201
    ≡ (if 2 == 0 then text_mem 0x201 else if 0x201 == 0x200 then text_mem 0x100 else text_mem 0x201)
strcpy_copies_first_example = strcpy_copies_first 0x100 0x200 2 text_mem text_mem-IsBytes 0x201

create_first_process-IsCreated_example :
    let (s', sp) = create_first_process 0 0 two in IsCreated two 0x2000 (0x3000 ∷ 0x4000 ∷ []) s' sp
create_first_process-IsCreated_example =
    create_first_process-IsCreated 0 0 two 0x1000 0x2000 (0x3000 ∷ 0x4000 ∷ []) (omega arith)
      boot-IsFree
