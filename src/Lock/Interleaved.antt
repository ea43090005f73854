-- ===== src/Lock/Interleaved.antt =====
-- The spin lock of kernel/lock.c with any number of CPUs, one shared access at a time, in any order.
-- Each CPU calls `spinlock_acquire` while it is outside, and `spinlock_release` while it is between the
-- two; the CPUs in `stray` also call `spinlock_release` while they are outside, as the end of
-- `sleeplock_acquire` does once `sleep` has given the spin lock back.
pub mod Stray
use skinny_arm.Base.{
  ℕ, ◌≡◌, ◌≢◌, refl, sym, ap, ◌∙◌, Bool, Bool-cases, inl, inr, ==→eq, true, false, arith, ◌==◌,
  if◌then◌else◌,
}
use skinny_arm.Lock.{SpinLock, spinlock_init, spinlock_holds, test_and_set, set_cpu, atomic_clear}

-- Where a CPU stands: outside; in the `while` of `spinlock_acquire`; behind it, before `lck->cpu` is
-- set; between acquire and release; behind the test of `spinlock_release`; behind `lck->cpu = 0`.
pub data Pc : Type 0 where
  idle spinning won holding passed cleared : Pc

-- Past the `while` of `spinlock_acquire`, before `__atomic_clear`.
abbrev pub is_owner : Pc → Bool
is_owner Pc.idle = false
is_owner Pc.spinning = false
is_owner _ = true

-- Between acquire and release, with `lck->cpu` set.
abbrev pub is_named : Pc → Bool
is_named Pc.holding = true
is_named Pc.passed = true
is_named _ = false

-- May CPU `i` call `spinlock_release` at `p`?
abbrev pub may_release : (stray : ℕ → Bool) (i : ℕ) → Pc → Bool
may_release stray i Pc.idle = stray i
may_release stray i Pc.holding = true
may_release stray i _ = false

-- One access of CPU `i` at `p`. The test of `spinlock_release` is the same for all its callers.
pub data Move (stray : ℕ → Bool) (i : ℕ) (m : SpinLock) : Pc → SpinLock → Pc → Type 0 where
  call : Move stray i m Pc.idle m Pc.spinning
  spin : (test_and_set m).0 ≢ 0 → Move stray i m Pc.spinning (test_and_set m).1 Pc.spinning
  win : (test_and_set m).0 ≡ 0 → Move stray i m Pc.spinning (test_and_set m).1 Pc.won
  name : Move stray i m Pc.won (set_cpu i m) Pc.holding
  pass :
      {p : Pc}
      → may_release stray i p ≡ true
      → spinlock_holds i m ≡ true
      → Move stray i m p m Pc.passed
  fail : {p : Pc} → may_release stray i p ≡ true → spinlock_holds i m ≡ false → Move stray i m p m p
  clear_cpu : Move stray i m Pc.passed (set_cpu 0 m) Pc.cleared
  unlock : Move stray i m Pc.cleared (atomic_clear m) Pc.idle

pub record World : Type 0 where
  pub lock : SpinLock
  pub pc : ℕ → Pc

abbrev pub update : (ℕ → Pc) → ℕ → Pc → ℕ → Pc
update f i p j = if i == j then p else f j

pub data Step (stray : ℕ → Bool) (w : World) : World → Type 0 where
  pick :
      (i : ℕ) {m : SpinLock} {p : Pc}
      → Move stray i w.lock (w.pc i) m p
      → Step stray w (record { lock = m; pc = update w.pc i p })

-- From a lock that `spinlock_init` set up, with every CPU outside.
pub data Reach (stray : ℕ → Bool) (lock_name : ℕ) : World → Type 0 where
  start : Reach stray lock_name (record { lock = spinlock_init lock_name; pc = λ _. Pc.idle })
  later : {w v : World} → Reach stray lock_name w → Step stray w v → Reach stray lock_name v

pub record Inv (m : SpinLock) (pc : ℕ → Pc) : Type 0 where
  pub taken : (i : ℕ) → is_owner (pc i) ≡ true → m.locked ≡ 1
  pub named : (i : ℕ) → is_named (pc i) ≡ true → m.cpu ≡ i
  pub unowned : ((i : ℕ) → is_owner (pc i) ≡ false) → m.locked ≡ 0
  pub unique : (i j : ℕ) → is_owner (pc i) ≡ true → is_owner (pc j) ≡ true → i ≡ j
  pub honest : (i : ℕ) → i ≢ 0 → i ≢ 255 → m.cpu ≡ i → is_named (pc i) ≡ true

-- CPU 0 makes no stray call, nor does a CPU with the number that the lock is set up with.
abbrev pub Careful : (ℕ → Bool) → Type 0
Careful stray = (stray 0 ≡ false) × (stray 255 ≡ false)

module _ (stray : ℕ → Bool) (careful : Careful stray) {m : SpinLock} {pc : ℕ → Pc} (inv : Inv m pc)
    (i : ℕ) where
  open inv use {taken, named, unique, unowned, honest}

  -- The test passes for the owner only: not for a stray call.
  pass-holding :
      (p : Pc)
      → may_release stray i p ≡ true
      → spinlock_holds i m ≡ true
      → pc i ≡ p
      → pc i ≡ Pc.holding
  unfolding spinlock_holds
  pass-holding Pc.idle may holds e =
      let here =
        honest i (λ z. cc (may, careful.0, ap stray z)) (λ z. cc (may, careful.1, ap stray z))
          (==→eq _ i holds) in
      absurd (cc (here, ap is_named e))
  pass-holding Pc.holding may holds e = e
  pass-holding Pc.spinning may holds e = absurd (cc may)
  pass-holding Pc.won may holds e = absurd (cc may)
  pass-holding Pc.passed may holds e = absurd (cc may)
  pass-holding Pc.cleared may holds e = absurd (cc may)

  -- Where a CPU stays, all do.
  update-same : (p : Pc) → pc i ≡ p → (j : ℕ) → update pc i p j ≡ pc j
  update-same p e j = elim (Bool-cases (i == j)) [
    | inl here ↦ rw here (sym e ∙ ap pc (==→eq i j here))
    | inr other ↦ rw other refl
  ]

  Move-taken :
      {p p' : Pc} {m' : SpinLock}
      → Move stray i m p m' p'
      → pc i ≡ p
      → (j : ℕ) → is_owner (update pc i p' j) ≡ true
      → m'.locked ≡ 1
  unfolding test_and_set
  Move-taken call e j h = ground (arith, taken i, taken j)
  Move-taken (pass {p} may holds) e j h =
      ground (arith, ap is_owner (pass-holding p may holds e), taken i, taken j)
  Move-taken (fail {p} may holds) e j h = taken j (sym (ap is_owner (update-same p e j)) ∙ h)
  Move-taken mv e j h = ground (arith, taken i, taken j, unique i j)

  Move-unique :
      {p p' : Pc} {m' : SpinLock}
      → Move stray i m p m' p'
      → pc i ≡ p
      → (j l : ℕ) → is_owner (update pc i p' j) ≡ true
      → is_owner (update pc i p' l) ≡ true
      → j ≡ l
  unfolding test_and_set
  Move-unique call e j l hj hl = ground (arith, unique j l, unique i j, unique i l)
  Move-unique (win free) e j l hj hl = ground (arith, free, taken j, taken l)
  Move-unique (pass {p} may holds) e j l hj hl =
      ground (arith, ap is_owner (pass-holding p may holds e), unique j l, unique i j, unique i l)
  Move-unique (fail {p} may holds) e j l hj hl =
      unique j l (sym (ap is_owner (update-same p e j)) ∙ hj)
        (sym (ap is_owner (update-same p e l)) ∙ hl)
  Move-unique mv e j l hj hl = ground (arith, unique j l, unique i j, unique i l)

  Move-named :
      {p p' : Pc} {m' : SpinLock}
      → Move stray i m p m' p'
      → pc i ≡ p
      → (j : ℕ) → is_named (update pc i p' j) ≡ true
      → m'.cpu ≡ j
  unfolding test_and_set
  Move-named call e j h = ground (arith, named j)
  Move-named name e j h = ground (arith, unique i j, named j)
  Move-named (pass {p} may holds) e j h =
      ground (arith, ap is_named (pass-holding p may holds e), named i, named j)
  Move-named (fail {p} may holds) e j h = named j (sym (ap is_named (update-same p e j)) ∙ h)
  Move-named mv e j h = ground (arith, named i, named j, unique i j)

  Move-unowned :
      {p p' : Pc} {m' : SpinLock}
      → Move stray i m p m' p'
      → pc i ≡ p
      → ((j : ℕ) → is_owner (update pc i p' j) ≡ false)
      → m'.locked ≡ 0
  unfolding test_and_set
  Move-unowned call e quiet = unowned λ j. ground (arith, quiet j)
  Move-unowned (spin busy) e quiet = absurd (busy (unowned λ j. ground (arith, quiet j)))
  Move-unowned (win free) e quiet = ground (arith, quiet i)
  Move-unowned (fail {p} may holds) e quiet =
      unowned λ j. sym (ap is_owner (update-same p e j)) ∙ quiet j
  Move-unowned mv e quiet = ground (arith, quiet i)

  Move-honest :
      {p p' : Pc} {m' : SpinLock}
      → Move stray i m p m' p'
      → pc i ≡ p
      → (j : ℕ) → j ≢ 0
      → j ≢ 255
      → m'.cpu ≡ j
      → is_named (update pc i p' j) ≡ true
  unfolding test_and_set
  Move-honest (fail {p} may holds) e j ne ne' h =
      ap is_named (update-same p e j) ∙ honest j ne ne' h
  Move-honest name e j ne ne' h = ground (arith, h)
  Move-honest clear_cpu e j ne ne' h = absurd (ne (sym h))
  Move-honest call e j ne ne' h = ground (arith, honest j ne ne' h)
  Move-honest mv e j ne ne' h = ground (arith, honest j ne ne' h)

  Move-Inv : {p' : Pc} {m' : SpinLock} → Move stray i m (pc i) m' p' → Inv m' (update pc i p')
  Move-Inv mv = record {
    taken = Move-taken mv refl;
    named = Move-named mv refl;
    unique = Move-unique mv refl;
    unowned = Move-unowned mv refl;
    honest = Move-honest mv refl;
  }

Reach-Inv :
    (stray : ℕ → Bool) {n : ℕ} {w : World} → Careful stray → Reach stray n w → Inv w.lock w.pc
unfolding spinlock_init
Reach-Inv stray careful start = record {
  taken = λ i h. cc;
  named = λ i h. cc;
  unique = λ i j h. cc;
  unowned = λ _. refl;
  honest = λ i ne ne' h. absurd (ne' (sym h));
}
Reach-Inv stray careful (later r (pick i mv)) =
    Move-Inv stray careful (Reach-Inv stray careful r) i mv

module _ {stray : ℕ → Bool} {n : ℕ} {w : World} (careful : Careful stray)
    (r : Reach stray n w) where
  -- From a new lock, with any number of CPUs in any order, each of which calls `spinlock_acquire` while it is
  -- outside and `spinlock_release` behind it, and any of which but CPU 0 and CPU 255, the number that
  -- `spinlock_init` sets, calls `spinlock_release` while it is outside too: at most one CPU is past the
  -- loop of `spinlock_acquire` and before the end of `spinlock_release`.
  pub mutual_exclusion : (i j : ℕ) → is_owner (w.pc i) ≡ true → is_owner (w.pc j) ≡ true → i ≡ j
  mutual_exclusion = (Reach-Inv stray careful r).unique

  -- The test of `spinlock_release` passes for a CPU that is between acquire and release.
  release_passes : (i : ℕ) → w.pc i ≡ Pc.holding → spinlock_holds i w.lock ≡ true
  unfolding spinlock_holds
  release_passes i e = ground (arith, (Reach-Inv stray careful r).named i)

  -- While no CPU is past the loop of `spinlock_acquire` and before the end of `spinlock_release`, the flag
  -- is clear, so that the next `__atomic_test_and_set` gets the lock.
  unowned_is_free : ((i : ℕ) → is_owner (w.pc i) ≡ false) → (test_and_set w.lock).0 ≡ 0
  unfolding test_and_set
  unowned_is_free = (Reach-Inv stray careful r).unowned
