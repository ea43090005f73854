-- ===== src/Kalloc/Conserve.antt =====
-- Where the frames of kernel/kalloc.c are while a client runs.
use skinny_arm.Base.{
  ℕ, zero, suc, ◌+◌, ◌%◌, ◌^◌, ◌<◌, ◌≡◌, ◌≢◌, inl, inr, refl, ap, ◌∙◌, some, List, [], ◌∷◌,
  get_elem?, remove, arith, ◌==◌, if◌then◌else◌, Option-cases,
}
use skinny_arm.Kalloc.{Kernel, kalloc_init}
use skinny_arm.Kalloc.Init.{frames, count, kalloc_init-IsFree}
use skinny_arm.Kalloc.FreeList.{IsFree}
use skinny_arm.Kalloc.Client.{Op, alloc, free, write, read, Client, step}
use skinny_arm.Kalloc.Pool
use skinny_arm.Kalloc.Pool.{Page, Pool, put_byte}
use skinny_arm.Kalloc.Pages.{frames_of, set-frames_of}
use skinny_arm.Kalloc.Refine.{IsPool, step-Refines}

-- How often `x` is in a list.
abbrev pub times : ℕ → List ℕ → ℕ
times x [] = 0
times x (y ∷ ys) = (if x == y then 1 else 0) + times x ys

-- The client, and the pool, behind a sequence of calls.
abbrev pub after : List Op → Client → Client
after [] c = c
after (op ∷ ops) c = after ops (step op c).1

abbrev pool_after : List Op → Pool → Pool
pool_after [] p = p
pool_after (op ∷ ops) p = pool_after ops (Pool.step op p).1

after-IsPool :
    (ops : List Op) (c : Client) (p : Pool) → IsPool c p → IsPool (after ops c) (pool_after ops p)
after-IsPool [] c p is = is
after-IsPool (op ∷ ops) c p is =
    after-IsPool ops (step op c).1 (Pool.step op p).1 (step-Refines op c p is).1

abbrev total : ℕ → Pool → ℕ
total x p = times x (frames_of p.owned) + times x p.ready

times-remove :
    (x : ℕ) (gs : List Page) (i : ℕ) (g : Page)
    → get_elem? gs i ≡ some g
    → times x (frames_of gs) ≡ times x (g.frame ∷ frames_of (remove gs i))
times-remove x [] i g e = absurd (cc e)
times-remove x (h ∷ gs) zero g e =
    let same : h ≡ g = cc e in ap (λ (q : Page). times x (q.frame ∷ frames_of gs)) same
times-remove x (h ∷ gs) (suc i) g e = omega (arith, times-remove x gs i g e)

total-alloc :
    (x : ℕ) (fs : List ℕ) (gs : List Page)
    → total x (Pool.step alloc (record { ready = fs; owned = gs })).1
      ≡ total x (record { ready = fs; owned = gs })
unfolding Pool.step
total-alloc x [] gs = refl
total-alloc x (f ∷ fs) gs = omega arith

total-step : (x : ℕ) (op : Op) (p : Pool) → total x (Pool.step op p).1 ≡ total x p
unfolding Pool.step
total-step x alloc p = total-alloc x p.ready p.owned
total-step x (free i) p = elim (Option-cases (get_elem? p.owned i)) [
  | inl e ↦ rw (e, Pool.step) refl
  | inr (g, e) ↦ rw (e, Pool.step) (omega (arith, times-remove x p.owned i g e))
]
total-step x (write i offset v) p = elim (Option-cases (get_elem? p.owned i)) [
  | inl e ↦ rw (e, Pool.step) refl
  | inr (g, e) ↦ rw (e, Pool.step) (rw (set-frames_of p.owned i g (offset % 4096) v e) refl)
]
total-step x (read i offset) p = elim (Option-cases (get_elem? p.owned i)) [
  | inl e ↦ rw (e, Pool.step) refl
  | inr (g, e) ↦ rw (e, Pool.step) refl
]

total-pool_after : (x : ℕ) (ops : List Op) (p : Pool) → total x (pool_after ops p) ≡ total x p
total-pool_after x [] p = refl
total-pool_after x (op ∷ ops) p = total-pool_after x ops (Pool.step op p).1 ∙ total-step x op p

-- From a start that is not NULL, with more than a frame between it and an end that is more than a
-- frame below `2 ^ 64`, `kalloc_init` ends, and behind every sequence of calls and uses of its pages by a
-- client, memory holds a proper free list, and each frame of the allocator is once on it or once with the
-- client, and not both: none is lost and none is given out twice.
pub kalloc_conserves :
    (ops : List Op) (start end : ℕ) (k : Kernel)
    → start ≢ 0
    → start + 4096 < end
    → end + 4096 < 2 ^ 64
    → (k' : Kernel) × (kalloc_init start end k ≡ some k')
      × ((fs : List ℕ) × IsFree (after ops (record { kernel = k'; owned = [] })).kernel fs
          × ((x : ℕ)
              → times x (after ops (record { kernel = k'; owned = [] })).owned + times x fs
                ≡ times x (frames (suc (count start end k)) start)))
kalloc_conserves ops start end k ne room fits =
    let (k', booted, first) = kalloc_init-IsFree start end k ne room fits in
    let p : Pool = record { ready = frames (suc (count start end k)) start; owned = [] } in
    let is =
      after-IsPool ops (record { kernel = k'; owned = [] }) p
        (record { ready = first; frames = refl; pages = tt }) in
    (
      k',
      booted,
      (
        (pool_after ops p).ready,
        is.ready,
        λ x.
            ap (λ fs. times x fs + times x (pool_after ops p).ready) is.frames
            ∙ total-pool_after x ops p
            ∙ omega arith,
      ),
    )
