-- ===== src/Process/Fork/Errors.antt =====
-- The failures of kernel/process.c's `sys_fork`.
use skinny_arm.Base.{
  ℕ, ◌<◌, ◌≡◌, ◌≢◌, refl, ap, ◌∙◌, true, false, some, List, [], ◌∷◌, length, arith,
}
use skinny_arm.Kalloc.{kfree}
use skinny_arm.Kalloc.FreeList.{IsFree, kalloc-cons, kalloc-nil, kfree-cons}
use skinny_arm.Process.{ProcessState, System, entry, put}
use skinny_arm.Process.Table.{entry-put_self, entry-put_ne, length-put}
use skinny_arm.Process.Fork.{is_free, fork_trap, fork_stack, fork_found, sys_fork}
use skinny_arm.Process.Fork.Search.{IsFirstFree, find_free-IsFirstFree, find_free-none}

-- With no free entry in the table `sys_fork` returns -1 and changes nothing.
sys_fork-full :
    (s : System) → ((i : ℕ) → i < 64 → is_free (entry s i) ≡ false) → sys_fork s ≡ some (false, s)
unfolding sys_fork fork_found
sys_fork-full s full = rw (find_free-none s.process_array 64 0 full refl)

-- A `sys_fork` that failed for want of memory: `child` is a free entry again.
pub record IsUndone (s : System) (child : ℕ) (fs : List ℕ) (s' : System) : Type 0 where
  pub others : (i : ℕ) → i ≢ child → entry s' i ≡ entry s i
  pub child_free : is_free (entry s' child) ≡ true
  pub frames : IsFree s'.kernel fs
  pub current : s'.current ≡ s.current

-- With a table of 64 entries, a free entry in it and fewer than two free frames `sys_fork` returns
-- -1: the entry that it took is free again, no other entry has changed, and the free frames are the
-- same.
pub sys_fork-out_of_memory :
    (s : System) (child : ℕ) (fs : List ℕ)
    → length s.process_array ≡ 64
    → IsFirstFree s.process_array child
    → IsFree s.kernel fs
    → length fs < 2
    → (s' : System) × (sys_fork s ≡ some (false, s')) × IsUndone s child fs s'
unfolding sys_fork fork_found fork_stack fork_trap
sys_fork-out_of_memory s child [] size first free few =
    let s1 = put child (record (entry s child) { state = ProcessState.waiting }) s in
    let s' = put child (record (entry s1 child) { state = ProcessState.free }) s1 in
    (
      s',
      rw (
        find_free-IsFirstFree s.process_array child 64 0 first (omega arith) refl,
        kalloc-nil s.kernel free,
      ),
      record {
        others = λ i ne. entry-put_ne child i _ s1 ne ∙ entry-put_ne child i _ s ne;
        child_free = ap is_free (
            entry-put_self child _ s1 (
              omega (
                arith,
                first.bound,
                length-put child (record (entry s child) { state = ProcessState.waiting }) s,
              )));
        frames = free;
        current = refl;
      },
    )
sys_fork-out_of_memory s child (f ∷ []) size first free few =
    let (k, got, taken) = kalloc-cons s.kernel f [] free in
    let s1 = put child (record (entry s child) { state = ProcessState.waiting }) s in
    let s2 = put child (record (entry s1 child) { stack_frame = f }) (record s1 { kernel = k }) in
    let s' =
      put child (record (entry s2 child) { state = ProcessState.free; stack_frame = 0 })
        (record s2 { kernel = kfree f k }) in
    (
      s',
      rw (
        find_free-IsFirstFree s.process_array child 64 0 first (omega arith) refl,
        got,
        kalloc-nil k taken.free,
      ),
      record {
        others = λ i ne.
            entry-put_ne child i _ (record s2 { kernel = kfree f k }) ne
            ∙ entry-put_ne child i _ (record s1 { kernel = k }) ne
            ∙ entry-put_ne child i _ s ne;
        child_free = ap is_free (
            entry-put_self child _ (record s2 { kernel = kfree f k })
              (omega (
                arith,
                first.bound,
                length-put child (record (entry s1 child) { stack_frame = f })
                    (record s1 { kernel = k }),
                length-put child (record (entry s child) { state = ProcessState.waiting }) s,
              )));
        frames = (kfree-cons k f [] taken.free free.chain.1 (omega (arith, free.small.0)) tt).0;
        current = refl;
      },
    )
sys_fork-out_of_memory s child (f ∷ g ∷ fs) size first free few = absurd (omega arith)
