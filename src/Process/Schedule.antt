-- ===== src/Process/Schedule.antt =====
-- kernel/process.c's `scheduler`: whose turn it is, and the switch to that process.
use skinny_arm.Base.{
  ℕ, zero, suc, ◌+◌, ◌-◌, ◌≤◌, ◌<◌, ◌≡◌, ◌≢◌, ◌⊎◌, inl, inr, refl, sym, subst, ap, ◌∙◌, true, false,
  Bool-cases, none, some, List, length, get_or, set, length-set, get_or-set_self, get_or-set_ne,
  arith, ◌==◌, ==→eq, ==→ne,
}
use skinny_arm.Process.{
  ProcessState, Process, no_process, System, entry, put, is_runnable, scan, search_next, switch_to,
  switch_found, scheduler,
}

abbrev pub Runnable : List Process → ℕ → Type 0
Runnable ps i = is_runnable (get_or ps i no_process) ≡ true

abbrev pub Idle : List Process → ℕ → Type 0
Idle ps i = is_runnable (get_or ps i no_process) ≡ false

-- `j` is the first runnable entry from `lo` on, and lies before `hi`.
record IsFirst (ps : List Process) (lo hi j : ℕ) : Type 0 where
  here : Runnable ps j
  from : lo ≤ j
  below : j < hi
  before : (l : ℕ) → lo ≤ l → l < j → Idle ps l

-- A scan of `n` entries from `i` on finds the first that is runnable, or none is.
scan-cases :
    (n i : ℕ) (ps : List Process)
    → ((scan n i ps ≡ none) × ((l : ℕ) → i ≤ l → l < i + n → Idle ps l))
      ⊎ ((j : ℕ) × (scan n i ps ≡ some j) × IsFirst ps i (i + n) j)
unfolding scan
scan-cases zero i ps = inl (refl, λ l lo hi. absurd (omega arith))
scan-cases (suc n) i ps = elim (Bool-cases (is_runnable (get_or ps i no_process))) [
  | inl found ↦ inr (
    i,
    rw found,
    record {
      here = found;
      from = omega arith;
      below = omega arith;
      before = λ l lo hi. absurd (omega arith);
    },
  )
  | inr idle ↦ elim (scan-cases n (i + 1) ps) [
    | inl (e, all) ↦ inl (rw (idle, e), λ l lo hi. widen idle all l lo (omega arith))
    | inr (j, e, first) ↦ inr (
      j,
      rw (idle, e),
      record {
        here = first.here;
        from = omega (arith, first.from);
        below = omega (arith, first.below);
        before = widen idle first.before;
      },
    )
  ]
]
  where
    widen :
        {k : ℕ}
        → Idle ps i
        → ((l : ℕ) → i + 1 ≤ l → l < k → Idle ps l)
        → (l : ℕ) → i ≤ l
        → l < k
        → Idle ps l
    widen idle rest l lo hi = elim (Bool-cases (i == l)) [
      | inl same ↦ subst (Idle ps) (==→eq i l same) idle
      | inr other ↦ rest l (omega (arith, ==→ne i l other)) hi
    ]

-- `j` is the entry whose turn it is after `cur`: runnable, and no entry between them in the order
-- cur + 1, …, 63, 0, …, cur is.
pub record IsNext (ps : List Process) (cur j : ℕ) : Type 0 where
  pub here : Runnable ps j
  pub bound : j < 64
  pub after : (l : ℕ) → cur < l → l < 64 → (j ≤ cur) ⊎ (l < j) → Idle ps l
  pub wrapped : j ≤ cur → (l : ℕ) → l < j → Idle ps l

search_next-IsNext :
    (ps : List Process) (cur : ℕ)
    → cur < 64
    → Runnable ps cur
    → (j : ℕ) × (search_next 2 (cur + 1) ps ≡ some j) × IsNext ps cur j
unfolding search_next
search_next-IsNext ps cur h own = elim (scan-cases (64 - (cur + 1)) (cur + 1) ps) [
  | inr (j, e, first) ↦ (
    j,
    rw (e, search_next),
    record {
      here = first.here;
      bound = omega (arith, first.below);
      after = λ l lo hi side. first.before l (omega arith) (omega (arith, first.from));
      wrapped = λ le. absurd (omega (arith, first.from));
    },
  )
  | inl (e, none_after) ↦ elim (scan-cases 64 0 ps) [
    | inl (e', all) ↦ absurd (cc (all cur (omega arith) (omega arith)))
    | inr (j, e', first) ↦ (
      j,
      rw (e, e', search_next),
      record {
        here = first.here;
        bound = omega (arith, first.below);
        after = λ l lo hi side. none_after l (omega arith) (omega arith);
        wrapped = λ le l lt. first.before l (omega arith) lt;
      },
    )
  ]
]

-- The table once the current process is runnable again.
abbrev pub requeued : System → List Process
requeued s =
    set s.process_array s.current (record (entry s s.current) { state = ProcessState.runnable })

-- The state after a switch from the current process of `s` to entry `j`.
pub record IsSwitched (s : System) (j : ℕ) (s' : System) : Type 0 where
  pub current : s'.current ≡ j
  pub table : s'.ttbr0 ≡ (entry s j).pagetable
  pub restored : j ≢ s.current → s'.cpu ≡ (entry s j).regs
  pub resumed : j ≡ s.current → s'.cpu ≡ s.cpu
  pub saved :
      entry s' s.current
      ≡ record (entry s s.current) { regs = s.cpu; state = ProcessState.runnable }
  pub others : (i : ℕ) → i ≢ s.current → entry s' i ≡ entry s i
  pub kernel : s'.kernel ≡ s.kernel

module _ (s : System) (cur_lt : s.current < length s.process_array) where
  abbrev ready : Process
  ready = record (entry s s.current) { state = ProcessState.runnable }

  abbrev marked : System
  marked = put s.current ready s

  marked_self : entry marked s.current ≡ ready
  marked_self = get_or-set_self s.process_array s.current ready no_process cur_lt

  abbrev stored : Process
  stored = record (entry marked s.current) { regs = s.cpu }

  abbrev switched : System
  switched = put s.current stored marked

  switched_self : entry switched s.current ≡ record ready { regs = s.cpu }
  switched_self =
      get_or-set_self (requeued s) s.current stored no_process
        (omega (arith, length-set s.process_array s.current ready))
      ∙ ap (λ (p : Process). record p { regs = s.cpu }) marked_self

  switched_other : (i : ℕ) → s.current ≢ i → entry switched i ≡ entry s i
  switched_other i ne =
      get_or-set_ne (requeued s) s.current i stored no_process ne
      ∙ get_or-set_ne s.process_array s.current i ready no_process ne

  switched_pagetable : (j : ℕ) → (entry switched j).pagetable ≡ (entry s j).pagetable
  switched_pagetable j = elim (Bool-cases (s.current == j)) [
    | inl same ↦
        subst (λ i. (entry switched i).pagetable ≡ (entry s i).pagetable) (==→eq s.current j same)
          (ap (λ (p : Process). p.pagetable) switched_self)
    | inr other ↦ ap (λ (p : Process). p.pagetable) (switched_other j (==→ne s.current j other))
  ]

  switch_to-IsSwitched : (j : ℕ) → IsSwitched s j (switch_to s.current j marked)
  unfolding switch_to
  switch_to-IsSwitched j = record {
    current = refl;
    table = switched_pagetable j;
    restored = λ ne. ap (λ (p : Process). p.regs) (switched_other j (λ e. ne (sym e)));
    resumed = λ e. ap (λ i. (entry switched i).regs) e ∙ ap (λ (p : Process). p.regs) switched_self;
    saved = switched_self;
    others = λ i ne. switched_other i (λ e. ne (sym e));
    kernel = refl;
  }

-- With a table of 64 entries and a current process in it, `scheduler` ends: it makes the current
-- process runnable, saves its registers, and switches to the process whose turn it is, with that
-- process's registers and page table; no other entry and no memory changes.
pub scheduler-IsNext :
    (s : System)
    → length s.process_array ≡ 64
    → s.current < 64
    → (j : ℕ) × (s' : System) × (scheduler s ≡ some s')
      × IsNext (requeued s) s.current j
      × IsSwitched s j s'
unfolding scheduler switch_found
scheduler-IsNext s size cur_lt =
    let inside : s.current < length s.process_array = omega arith in
    let own = ap is_runnable (marked_self s inside) in
    let (j, found, next) = search_next-IsNext (requeued s) s.current cur_lt own in
    (j, switch_to s.current j (marked s inside), rw found, next, switch_to-IsSwitched s inside j)
