-- ===== src/Process/Names.antt =====
-- kernel/process.c: the pids of the process table, through all calls that change it.
pub mod Fork
pub mod Calls
pub mod Run
use skinny_arm.Base.{
  ℕ, zero, suc, ◌+◌, ◌≤◌, ◌<◌, ◌≡◌, ◌≢◌, refl, sym, ap, subst, ◌∙◌, Bool, true, false, Bool-cases,
  inl, inr, Option, none, some, List, [], ◌∷◌, length, get_or, arith, ◌==◌, ==→eq, ==→ne,
}
use skinny_arm.Process.{ProcessState, Process, no_process, System, entry, put, pid_used}
use skinny_arm.Process.Table.{entry-put_self, entry-put_ne, length-put}
use skinny_arm.Process.Fork.{is_free}

-- 64 entries and a current one. An entry that is in use has a pid, but for the first, which may have pid 0;
-- one that is free has pid 0; and no other pid stands twice.
pub record IsNamed (s : System) : Type 0 where
  pub size : length s.process_array ≡ 64
  pub current_lt : s.current < 64
  pub present : s.current ≢ 0 → is_free (entry s s.current) ≡ false
  pub named : (i : ℕ) → i ≢ 0 → is_free (entry s i) ≡ false → (entry s i).pid ≢ 0
  pub unnamed : (i : ℕ) → is_free (entry s i) ≡ true → (entry s i).pid ≡ 0
  pub distinct : (i j : ℕ) → i ≢ j → (entry s i).pid ≡ (entry s j).pid → (entry s i).pid ≡ 0

-- What entry `c` may become.
pub record Fits (s : System) (c : ℕ) (p : Process) : Type 0 where
  pub named : c ≢ 0 → is_free p ≡ false → p.pid ≢ 0
  pub unnamed : is_free p ≡ true → p.pid ≡ 0
  pub distinct : (j : ℕ) → j ≢ c → (entry s j).pid ≡ p.pid → p.pid ≡ 0

-- From `s` to `s'` only entry `c` changes.
pub record Touched (c : ℕ) (s s' : System) : Type 0 where
  pub size : length s'.process_array ≡ length s.process_array
  pub others : (i : ℕ) → i ≢ c → entry s' i ≡ entry s i

pub Touched-refl : (c : ℕ) (s : System) → Touched c s s
Touched-refl c s = record { size = refl; others = λ i ne. refl }

pub Touched-put : (c : ℕ) (p : Process) (s s' : System) → Touched c s s' → Touched c s (put c p s')
Touched-put c p s s' t = record {
  size = length-put c p s' ∙ t.size;
  others = λ i ne. entry-put_ne c i p s' ne ∙ t.others i ne;
}

module _ (c : ℕ) (s s' : System) (is : IsNamed s) (t : Touched c s s')
    (fit : Fits s c (entry s' c)) where
  -- `P` holds of each entry, if it holds of `c` and of the old entries.
  each :
      (P : ℕ → Process → Type 0)
      → P c (entry s' c)
      → ((i : ℕ) → i ≢ c → P i (entry s i))
      → (i : ℕ) → P i (entry s' i)
  each P here there i = elim (Bool-cases (i == c)) [
    | inl same ↦ subst (λ j. P j (entry s' j)) (sym (==→eq i c same)) here
    | inr other ↦ subst (P i) (sym (t.others i (==→ne i c other))) (there i (==→ne i c other))
  ]

  kept : (i : ℕ) → i ≢ c → (entry s' i).pid ≡ (entry s i).pid
  kept i ne = ap (λ (p : Process). p.pid) (t.others i ne)

  distinct-here : (j : ℕ) → j ≢ c → (entry s' c).pid ≡ (entry s' j).pid → (entry s' c).pid ≡ 0
  distinct-here j ne e = fit.distinct j ne (sym (e ∙ kept j ne))

  distinct-others :
      (i j : ℕ) → i ≢ c → i ≢ j → (entry s' i).pid ≡ (entry s' j).pid → (entry s' i).pid ≡ 0
  distinct-others i j off ne e = elim (Bool-cases (j == c)) [
    | inl same ↦
        let e' = subst (λ l. (entry s' i).pid ≡ (entry s' l).pid) (==→eq j c same) e in
        e' ∙ distinct-here i off (sym e')
    | inr other ↦
        let off' = ==→ne j c other in
        kept i off ∙ is.distinct i j ne (sym (kept i off) ∙ e ∙ kept j off')
  ]

  distinct-all : (i j : ℕ) → i ≢ j → (entry s' i).pid ≡ (entry s' j).pid → (entry s' i).pid ≡ 0
  distinct-all i j ne e = elim (Bool-cases (i == c)) [
    | inr other ↦ distinct-others i j (==→ne i c other) ne e
    | inl same ↦
        let at : i ≡ c = ==→eq i c same in
        subst (λ l. (entry s' l).pid ≡ 0) (sym at)
          (distinct-here j (λ z. ne (at ∙ sym z))
            (subst (λ l. (entry s' l).pid ≡ (entry s' j).pid) at e))
  ]

  pub IsNamed-Touched :
      s'.current < 64 → (s'.current ≢ 0 → is_free (entry s' s'.current) ≡ false) → IsNamed s'
  IsNamed-Touched current_lt present = record {
    size = t.size ∙ is.size;
    current_lt = current_lt;
    present = present;
    named = each (λ i p. i ≢ 0 → is_free p ≡ false → p.pid ≢ 0) fit.named (λ i ne. is.named i);
    unnamed = each (λ i p. is_free p ≡ true → p.pid ≡ 0) fit.unnamed (λ i ne. is.unnamed i);
    distinct = distinct-all;
  }

-- A change of entry `c` that keeps its pid, and does not free it or use it for the first time.
Fits-same :
    (s : System) (c : ℕ) (p : Process)
    → IsNamed s
    → p.pid ≡ (entry s c).pid
    → is_free p ≡ is_free (entry s c)
    → Fits s c p
Fits-same s c p is same state = record {
  named = λ ne used zero_pid. is.named c ne (sym state ∙ used) (sym same ∙ zero_pid);
  unnamed = λ gone. same ∙ is.unnamed c (sym state ∙ gone);
  distinct = λ j ne e. same ∙ is.distinct c j (λ z. ne (sym z)) (sym same ∙ sym e);
}

-- An entry that is freed.
Fits-free : (s : System) (c : ℕ) (p : Process) → p.pid ≡ 0 → is_free p ≡ true → Fits s c p
Fits-free s c p zero_pid gone = record {
  named = λ ne used. absurd (cc (gone, used));
  unnamed = λ _. zero_pid;
  distinct = λ j ne e. zero_pid;
}

unused-ne :
    (pid i : ℕ) (ps : List Process)
    → pid_used pid ps ≡ false
    → pid ≢ 0
    → (get_or ps i no_process).pid ≢ pid
unfolding pid_used
unused-ne pid i [] unused ne = λ e. ne (sym e)
unused-ne pid zero (p ∷ ps) unused ne = ground (arith, unused)
unused-ne pid (suc i) (p ∷ ps) unused ne = unused-ne pid i ps (ground (arith, unused)) ne

-- An entry that gets a pid that no other has.
Fits-new :
    (s : System) (c : ℕ) (p : Process)
    → p.pid ≢ 0
    → is_free p ≡ false
    → ((j : ℕ) → j ≢ c → (entry s j).pid ≢ p.pid)
    → Fits s c p
Fits-new s c p ne used new = record {
  named = λ _ _. ne;
  unnamed = λ gone. absurd (cc (gone, used));
  distinct = λ j off e. absurd (new j off e);
}
