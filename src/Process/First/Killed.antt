-- ===== src/Process/First/Killed.antt =====
-- kernel/process.c: `kill_process` of the process that `create_first_process` makes.
use skinny_arm.Base.{
  ℕ, ◌<◌, ◌≡◌, refl, sym, ap, ap₂, subst, length-set, ◌∙◌, true, List, [], ◌∷◌, length, arith,
}
use skinny_arm.Kalloc.{Kernel, kfree}
use skinny_arm.Kalloc.FreeList.{IsFree, kfree-cons}
use skinny_arm.Process.{Process, System, entry, kill_process}
use skinny_arm.Process.Kill.{kill_process-first}
use skinny_arm.Process.First.{create_first_process, create_first_process-IsCreated}

-- `kfree` of NULL: the list is empty, whatever it held.
kfree-null : (k : Kernel) → IsFree (kfree 0 k) []
unfolding kfree
kfree-null k = record { chain = refl; apart = tt; small = tt }

created-length :
    (stack_frame trap_frame : ℕ) (s : System)
    → length (create_first_process stack_frame trap_frame s).0.process_array
      ≡ length s.process_array
unfolding create_first_process
created-length v w s = length-set _ 0 _ ∙ length-set s.process_array 0 _

-- In a table whose first entry has no stack frame, and with two free frames, `create_first_process` and then
-- `kill_process` of pid 0, which is the pid of the process: it returns 0, and the free list holds the
-- second of the two frames and nothing else, however many frames were free: `kfree` gets the NULL that
-- still stands in the entry as its stack frame, and makes it the head of the list.
pub kill_process-created :
    (stack_frame trap_frame : ℕ) (s : System) (f g : ℕ) (fs : List ℕ)
    → 0 < length s.process_array
    → (entry s 0).stack_frame ≡ 0
    → IsFree s.kernel (f ∷ g ∷ fs)
    → (s' : System) × (kill_process 0 (create_first_process stack_frame trap_frame s).0
        ≡ (true, s'))
      × IsFree s'.kernel (g ∷ [])
kill_process-created v w s f g fs some_entry no_stack free =
    let s1 = (create_first_process v w s).0 in
    let is = create_first_process-IsCreated v w s f g fs some_entry free in
    let (s', run, left, others, kernel, current) =
      kill_process-first 0 s1 (omega (arith, created-length v w s))
        (ap (λ (p : Process). p.pid) is.born) in
    let stack : (entry s1 0).stack_frame ≡ 0 =
      ap (λ (p : Process). p.stack_frame) is.born ∙ no_stack in
    let trap : (entry s1 0).trap_frame ≡ g = ap (λ (p : Process). p.trap_frame) is.born in
    let same : s'.kernel ≡ kfree g (kfree 0 s1.kernel) =
      kernel ∙ ap₂ (λ a b. kfree a (kfree b s1.kernel)) trap stack in
    (
      s',
      run,
      subst (λ k. IsFree k (g ∷ [])) (sym same)
          (kfree-cons (kfree 0 s1.kernel) g [] (kfree-null s1.kernel) free.chain.2.1 free.small.1.0
            tt).0,
    )
