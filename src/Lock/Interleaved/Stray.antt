-- ===== src/Lock/Interleaved/Stray.antt =====
-- kernel/lock.c: what a stray `spinlock_release` of CPU 0 does to a spin lock.
use skinny_arm.Base.{ℕ, ◌≡◌, ◌≢◌, refl, sym, subst, ◌∙◌, eq→==, Bool, true, arith}
use skinny_arm.Lock.{SpinLock, spinlock_init, spinlock_holds, test_and_set, set_cpu}
use skinny_arm.Lock.Interleaved.{Pc, may_release, Move, World, update, Step, Reach}

module _ (stray : ℕ → Bool) (name : ℕ) where
  At : SpinLock → (ℕ → Pc) → Type 0
  At m pc = Reach stray name (record { lock = m; pc = pc })

  At-Move :
      (m m' : SpinLock) (pc : ℕ → Pc) (i : ℕ) (p p' : Pc)
      → At m pc
      → pc i ≡ p
      → Move stray i m p m' p'
      → At m' (update pc i p')
  unfolding At
  At-Move m m' pc i p p' here e mv =
      Reach.later here (Step.pick i (subst (λ q. Move stray i m q m' p') (sym e) mv))

  -- Only CPU `i` moves, and it ends at `q`.
  record IsMoved (m : SpinLock) (pc : ℕ → Pc) (i : ℕ) (q : Pc) : Type 0 where
    after : ℕ → Pc
    reached : At m after
    own : after i ≡ q
    others : (j : ℕ) → j ≢ i → after j ≡ pc j

  -- A CPU that is outside gets a free lock, up to the end of the loop.
  At-won :
      (m : SpinLock) (pc : ℕ → Pc) (i : ℕ)
      → At m pc
      → pc i ≡ Pc.idle
      → m.locked ≡ 0
      → IsMoved (record m { locked = 1 }) pc i Pc.won
  unfolding test_and_set
  At-won m pc i here e free = record {
    after = update (update pc i Pc.spinning) i Pc.won;
    reached =
        At-Move m _ _ i Pc.spinning Pc.won (At-Move m m pc i Pc.idle Pc.spinning here e Move.call)
          (ground arith) (Move.win free);
    own = ground arith;
    others = λ j ne. ground (arith, ne);
  }

  At-named :
      (m : SpinLock) (pc : ℕ → Pc) (i : ℕ)
      → At m pc
      → pc i ≡ Pc.won
      → IsMoved (record m { cpu = i }) pc i Pc.holding
  At-named m pc i here e = record {
    after = update pc i Pc.holding;
    reached = At-Move m _ pc i Pc.won Pc.holding here e Move.name;
    own = ground arith;
    others = λ j ne. ground (arith, ne);
  }

  -- A call of `spinlock_release` that passes the test.
  At-released :
      (m : SpinLock) (pc : ℕ → Pc) (i : ℕ) (p : Pc)
      → At m pc
      → pc i ≡ p
      → may_release stray i p ≡ true
      → m.cpu ≡ i
      → IsMoved (record m { locked = 0; cpu = 0 }) pc i Pc.idle
  unfolding spinlock_holds
  At-released m pc i p here e may named = record {
    after = update (update (update pc i Pc.passed) i Pc.cleared) i Pc.idle;
    reached =
        At-Move (set_cpu 0 m) _ _ i Pc.cleared Pc.idle
          (At-Move m _ _ i Pc.passed Pc.cleared
            (At-Move m m pc i p Pc.passed here e (Move.pass may (eq→== _ i named))) (ground arith)
            Move.clear_cpu)
          (ground arith) Move.unlock;
    own = ground arith;
    others = λ j ne. ground (arith, ne);
  }

  -- If CPU 0 calls `spinlock_release` while it is outside, then from a new lock a state can be reached in
  -- which any two other CPUs are between `spinlock_acquire` and `spinlock_release`: a release leaves 0
  -- in `cpu`, so that the test passes for CPU 0 while another CPU is behind the loop and has not set
  -- `cpu` yet, and the call clears that CPU's flag.
  pub two_holding :
      (i j : ℕ)
      → stray 0 ≡ true
      → i ≢ 0
      → j ≢ 0
      → i ≢ j
      → (w : World) × Reach stray name w × (w.pc i ≡ Pc.holding) × (w.pc j ≡ Pc.holding)
  unfolding At spinlock_init
  two_holding i j may i0 j0 ij =
      let a = At-won (spinlock_init name) (λ _. Pc.idle) i Reach.start refl refl in
      let b = At-named _ a.after i a.reached a.own in
      let c = At-released _ b.after i Pc.holding b.reached b.own refl refl in
      let d = At-won _ c.after i c.reached c.own refl in
      let outside : (l : ℕ) → l ≢ i → d.after l ≡ Pc.idle =
        λ l ne. d.others l ne ∙ c.others l ne ∙ b.others l ne ∙ a.others l ne in
      let e = At-released _ d.after 0 Pc.idle d.reached (outside 0 λ z. i0 (sym z)) may refl in
      let f = At-named _ e.after i e.reached (e.others i i0 ∙ d.own) in
      let ji : j ≢ i = λ z. ij (sym z) in
      let g = At-won _ f.after j f.reached (f.others j ji ∙ e.others j j0 ∙ outside j ji) refl in
      let h = At-named _ g.after j g.reached g.own in
      (_, h.reached, h.others i ij ∙ g.others i ij ∙ f.own, h.own)
