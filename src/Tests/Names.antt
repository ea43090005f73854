-- ===== src/Tests/Names.antt =====
-- The first process and its child, in a table that nothing had been stored in.
use skinny_arm.Base.{
  ℕ, zero, suc, ◌<◌, ◌≡◌, ◌≢◌, refl, ap, ◌∙◌, true, false, some, [], ◌∷◌, get_or, length, arith,
}
use skinny_arm.Process.{no_process, Process, System, entry, kill_process}
use skinny_arm.Process.First.Killed.{kill_process-created}
use skinny_arm.Kalloc.FreeList.{IsFree}
use skinny_arm.Process.First.{IsCreated, create_first_process, create_first_process-IsCreated}
use skinny_arm.Process.Fork.{is_free, sys_fork}
use skinny_arm.Process.Fork.Search.{IsFirstFree}
use skinny_arm.Process.Fork.Child.{IsForked, sys_fork-IsForked}
use skinny_arm.Process.Names.{IsNamed}
use skinny_arm.Process.Names.Run.{
  IsFresh, Reach, created, called, forked, Reach-IsNamed, used-distinct,
}
use skinny_arm.Tests.Boot.{boot-IsFree}
use skinny_arm.Tests.Processes.{copies, two}

abbrev fresh : System
fresh = record two { process_array = copies 64 no_process }

copies-entry : (n i : ℕ) → get_or (copies n no_process) i no_process ≡ no_process
copies-entry zero i = refl
copies-entry (suc n) zero = refl
copies-entry (suc n) (suc i) = copies-entry n i

length-copies : (n : ℕ) (p : Process) → length (copies n p) ≡ n
length-copies zero p = refl
length-copies (suc n) p = ap suc (length-copies n p)

fresh-IsFresh : IsFresh fresh
fresh-IsFresh = record { size = length-copies 64 no_process; empty = copies-entry 64 }

abbrev first : System
first = (create_first_process 0 0 fresh).0

first-IsCreated :
    IsCreated fresh 0x2000 (0x3000 ∷ 0x4000 ∷ []) first (create_first_process 0 0 fresh).1
first-IsCreated =
    create_first_process-IsCreated 0 0 fresh 0x1000 0x2000 (0x3000 ∷ 0x4000 ∷ []) (omega arith)
      boot-IsFree

first-Reach : Reach first
first-Reach = created 0 0 fresh-IsFresh

first-busy : is_free (entry first 0) ≡ false
first-busy = ap is_free first-IsCreated.born

first-IsFirstFree : IsFirstFree first.process_array 1
first-IsFirstFree = record {
  here = ap is_free (first-IsCreated.others 1 (omega arith));
  bound = omega arith;
  before = below;
}
  where
    below : (i : ℕ) → i < 1 → is_free (get_or first.process_array i no_process) ≡ false
    below zero h = first-busy
    below (suc i) h = absurd (omega arith)

child :
    (pid : ℕ) × (s' : System) × (sys_fork first ≡ some (true, s'))
    × IsForked first 1 0x3000 0x4000 [] pid s'
child =
    sys_fork-IsForked first 1 0x3000 0x4000 [] (Reach-IsNamed first-Reach).size first-IsFirstFree
      (ap (λ i. is_free (entry first i)) first-IsCreated.current ∙ first-busy)
      first-IsCreated.frames

abbrev both : System
both = child.1

both-Reach : Reach both
both-Reach = called first-Reach (forked true child.2)

Reach-IsNamed_example : IsNamed both
Reach-IsNamed_example = Reach-IsNamed both-Reach

used-distinct_example : (entry both 0).pid ≢ (entry both 1).pid
used-distinct_example =
    used-distinct both 0 1 both-Reach (omega arith)
      (ap is_free (child.3.others 0 (omega arith)) ∙ first-busy) (ap is_free child.3.born)

kill_process-created_example :
    (s' : System) × (kill_process 0 first ≡ (true, s')) × IsFree s'.kernel (0x2000 ∷ [])
kill_process-created_example =
    kill_process-created 0 0 fresh 0x1000 0x2000 (0x3000 ∷ 0x4000 ∷ []) (omega arith) refl
      boot-IsFree
