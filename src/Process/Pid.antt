-- ===== src/Process/Pid.antt =====
-- kernel/process.c's `getpid`, by counting the pids that are in use.
use skinny_arm.Base.{
  ℕ, zero, suc, ◌+◌, ◌-◌, ◌%◌, ◌≤◌, ◌<◌, ◌≡◌, refl, ap, ◌∙◌, true, false, Bool-cases, inl, inr,
  ==→eq, ==→ne, some, List, [], ◌∷◌, length, get_or, set, arith, leb, ◌==◌, if◌then◌else◌,
}
use skinny_arm.Process.{Process, no_process, System, entry, put, pid_used, getpid_loop, getpid}

-- How many processes have a pid from 1 to `k`, and how many have pid `k`.
upto : ℕ → List Process → ℕ
upto k [] = 0
upto k (p ∷ ps) =
    if leb 1 p.pid then (if leb p.pid k then suc (upto k ps) else upto k ps) else upto k ps

having : ℕ → List Process → ℕ
having k [] = 0
having k (p ∷ ps) = if p.pid == k then suc (having k ps) else having k ps

upto-le : (k : ℕ) (ps : List Process) → upto k ps ≤ length ps
unfolding upto
upto-le k [] = omega arith
upto-le k (p ∷ ps) = ground (arith, upto-le k ps)

upto-suc : (k : ℕ) (ps : List Process) → upto (suc k) ps ≡ upto k ps + having (suc k) ps
unfolding upto having
upto-suc k [] = omega arith
upto-suc k (p ∷ ps) = ground (arith, upto-suc k ps)

having-pos : (k : ℕ) (ps : List Process) → pid_used k ps ≡ true → 1 ≤ having k ps
unfolding having pid_used
having-pos k [] h = cc
having-pos k (p ∷ ps) h = ground (arith, having-pos k ps)

-- Every pid from 1 to `k` is in the table.
abbrev pub UsedUpto : ℕ → List Process → Type 0
UsedUpto k ps = (j : ℕ) → 1 ≤ j → j ≤ k → pid_used j ps ≡ true

-- Pigeons and holes.
used-le : (k : ℕ) (ps : List Process) → UsedUpto k ps → k ≤ upto k ps
used-le zero ps used = omega arith
used-le (suc k) ps used = omega (
  arith,
  upto-suc k ps,
  having-pos (suc k) ps (used (suc k) (omega arith) (omega arith)),
  used-le k ps (λ j lo hi. used j lo (omega arith)),
)

UsedUpto-le : (k : ℕ) (ps : List Process) → UsedUpto k ps → k ≤ length ps
UsedUpto-le k ps used = omega (arith, used-le k ps used, upto-le k ps)

-- A pid that no process has, with every lower one from 1 on in use.
pub record IsLeastFree (pid : ℕ) (ps : List Process) : Type 0 where
  pub unused : pid_used pid ps ≡ false
  pub positive : 1 ≤ pid
  pub bounded : pid ≤ length ps + 1
  pub least : UsedUpto (pid - 1) ps

UsedUpto-suc :
    (pid : ℕ) (ps : List Process)
    → 1 ≤ pid
    → pid_used pid ps ≡ true
    → UsedUpto (pid - 1) ps
    → UsedUpto (pid + 1 - 1) ps
UsedUpto-suc pid ps pos taken used j lo hi = elim (Bool-cases (j == pid)) [
  | inl same ↦ ap (λ i. pid_used i ps) (==→eq j pid same) ∙ taken
  | inr other ↦ used j lo (omega (arith, ==→ne j pid other))
]

getpid_loop-IsLeastFree :
    (fuel pid : ℕ) (ps : List Process)
    → 1 ≤ pid
    → length ps < 255
    → UsedUpto (pid - 1) ps
    → length ps + 1 < pid + fuel
    → (r : ℕ) × (getpid_loop fuel pid ps ≡ some r) × IsLeastFree r ps
unfolding getpid_loop
getpid_loop-IsLeastFree zero pid ps pos small used enough =
    absurd (omega (arith, UsedUpto-le (pid - 1) ps used))
getpid_loop-IsLeastFree (suc fuel) pid ps pos small used enough =
    elim (Bool-cases (pid_used pid ps)) [
      | inr unused ↦ (
        pid,
        rw unused,
        record {
          unused = unused;
          positive = pos;
          bounded = omega (arith, UsedUpto-le (pid - 1) ps used);
          least = used;
        },
      )
      | inl taken ↦
          let used' = UsedUpto-suc pid ps pos taken used in
          let bound = UsedUpto-le (pid + 1 - 1) ps used' in
          let e : (pid + 1) % 256 ≡ pid + 1 = omega arith in
          rw (taken, e)
            (getpid_loop-IsLeastFree fuel (pid + 1) ps (omega arith) small used' (omega arith))
    ]

-- With at most 64 processes `getpid` ends, and returns a pid from 1 to 65 that no process has, while
-- every smaller one from 1 on is in use.
pub getpid-IsLeastFree :
    (ps : List Process) → length ps ≤ 64 → (pid : ℕ) × (getpid ps ≡ some pid) × IsLeastFree pid ps
unfolding getpid
getpid-IsLeastFree ps h =
    getpid_loop-IsLeastFree 65 1 ps (omega arith) (omega arith) (λ j lo hi. absurd (omega arith))
      (omega arith)

pid_used-set :
    (k i : ℕ) (p : Process) (ps : List Process)
    → p.pid ≡ (get_or ps i no_process).pid
    → pid_used k (set ps i p) ≡ pid_used k ps
unfolding pid_used
pid_used-set k i p [] same = refl
pid_used-set k zero p (q ∷ ps) same = rw same
pid_used-set k (suc i) p (q ∷ ps) same = rw (pid_used-set k i p ps same)

getpid_loop-set :
    (fuel pid i : ℕ) (p : Process) (ps : List Process)
    → p.pid ≡ (get_or ps i no_process).pid
    → getpid_loop fuel pid (set ps i p) ≡ getpid_loop fuel pid ps
unfolding getpid_loop
getpid_loop-set zero pid i p ps same = refl
getpid_loop-set (suc fuel) pid i p ps same =
    rw (pid_used-set pid i p ps same, getpid_loop-set fuel ((pid + 1) % 256) i p ps same)

-- A write that keeps an entry's pid does not change what `getpid` returns.
pub getpid-put :
    (i : ℕ) (p : Process) (s : System)
    → p.pid ≡ (entry s i).pid
    → getpid (put i p s).process_array ≡ getpid s.process_array
unfolding getpid
getpid-put i p s same = getpid_loop-set 65 1 i p s.process_array same
