-- ===== src/Kalloc/Init.antt =====
-- kernel/kalloc.c's `kalloc_init`: the list that it builds, and where its frames lie.
use skinny_arm.Base.{
  ℕ, zero, suc, ◌+◌, ◌-◌, ◌*◌, ◌/◌, ◌^◌, ◌≤◌, ◌<◌, ◌≡◌, ◌≢◌, inl, refl, subst, ◌∙◌, some, List, [],
  ◌∷◌, ◌++◌, ap, All, arith,
}
use skinny_arm.Memory.{Mem, load64_ext, load64-store64_self, store64-outside}
use skinny_arm.Kalloc.{Kernel, set_next, next, init_loop, kalloc_init}
use skinny_arm.Kalloc.FreeList.{Chain, Apart, AllApart, IsFree}

-- `n` frames in a row from address `a` on.
abbrev pub frames : ℕ → ℕ → List ℕ
frames zero a = []
frames (suc n) a = a ∷ frames n (a + 4096)

frames-Apart : (n a f : ℕ) → f + 4096 ≤ a → All (Apart f) (frames n a)
frames-Apart zero a f h = tt
frames-Apart (suc n) a f h = (inl h, frames-Apart n (a + 4096) f (omega arith))

frames-AllApart : (n a : ℕ) → AllApart (frames n a)
frames-AllApart zero a = tt
frames-AllApart (suc n) a =
    (frames-Apart n (a + 4096) a (omega arith), frames-AllApart n (a + 4096))

frames-lt : (n a b : ℕ) → a + 4096 * n ≤ b → All (λ f. f < b) (frames n a)
frames-lt zero a b h = tt
frames-lt (suc n) a b h = (omega arith, frames-lt n (a + 4096) b (omega arith))

-- What the loop leaves once the last `next` is cleared: from `prev` a chain through `fs`, and
-- memory below `prev` as it was.
record IsLinked (prev : ℕ) (fs : List ℕ) (m n : Mem) : Type 0 where
  linked : Chain n (next n prev) fs
  below : (x : ℕ) → x < prev → n x ≡ m x

-- One round of the loop puts `addr` in front.
IsLinked-step :
    (prev addr : ℕ) (fs : List ℕ) (m n : Mem)
    → addr < 2 ^ 64
    → prev + 4096 ≡ addr
    → IsLinked addr fs (set_next m prev addr) n
    → IsLinked prev (addr ∷ fs) m n
IsLinked-step prev addr fs m n fits step is = record {
  linked = (link, omega arith, is.linked);
  below = λ x h. is.below x (omega arith) ∙ store64-outside m prev addr x (ground arith);
}
  where
    link : next n prev ≡ addr
    link =
        load64_ext n (set_next m prev addr) prev (λ x lo hi. is.below x (omega arith))
        ∙ load64-store64_self m prev addr fits

-- Exactly `r` frames from `addr` on start at or below the end.
record Rounds (kalloc_end r addr : ℕ) : Type 0 where
  past : kalloc_end < addr + 4096 * r
  last : addr + 4096 * r ≤ kalloc_end + 4096
  fits : addr + 4096 * r < 2 ^ 64

init_loop-IsLinked :
    (e r fuel addr prev frame : ℕ) (m : Mem)
    → Rounds e r addr
    → r < fuel
    → prev ≢ 0
    → prev + 4096 ≡ addr
    → (r ≡ 0 → frame ≡ prev)
    → (end : ℕ × Mem) × (init_loop fuel e addr frame prev m ≡ some end)
      × IsLinked prev (frames r addr) m (set_next end.1 end.0 0)
unfolding init_loop
init_loop-IsLinked e r zero addr prev frame m rounds enough ne step same = absurd (omega arith)
init_loop-IsLinked e zero (suc fuel) addr prev frame m rounds enough ne step same = (
  (frame, m),
  ground (arith, rounds.past),
  rw (same refl) (record {
    linked = load64-store64_self m prev 0 (omega arith);
    below = λ x h. store64-outside m prev 0 x (ground arith);
  }),
)
init_loop-IsLinked e (suc r) (suc fuel) addr prev frame m rounds enough ne step same =
    let (end, run, is) =
      init_loop-IsLinked e r fuel (addr + 4096) addr addr (set_next m prev addr)
        (record {
          past = omega (arith, rounds.past);
          last = omega (arith, rounds.last);
          fits = omega (arith, rounds.fits);
        })
        (omega arith) (omega arith) refl (λ _. refl) in
    (
      end,
      ground (arith, run, rounds.last),
      IsLinked-step prev addr (frames r (addr + 4096)) m (set_next end.1 end.0 0)
          (omega (arith, rounds.fits)) step is,
    )

frames-snoc : (n a : ℕ) → frames (suc n) a ≡ frames n a ++ (a + 4096 * n) ∷ []
frames-snoc zero a = ap (λ f. f ∷ []) (omega arith)
frames-snoc (suc n) a =
    ap (λ fs. a ∷ fs)
      (frames-snoc n (a + 4096) ∙ ap (λ f. frames n (a + 4096) ++ f ∷ []) (omega arith))

module _ (start end : ℕ) (k : Kernel) where
  -- The frames of the list: all that start between the two addresses, the end included.
  abbrev pub count : ℕ
  count = (end - start) / 4096

  -- From a start that is not NULL, with more than a frame between it and an end that is more than a
  -- frame below `2 ^ 64`, `kalloc_init` ends with a free list of the frames `start`, `start +
  -- 4096`, … in this order: all that start at or below the end.
  pub kalloc_init-IsFree :
      start ≢ 0
      → start + 4096 < end
      → end + 4096 < 2 ^ 64
      → (k' : Kernel) × (kalloc_init start end k ≡ some k') × IsFree k' (frames (suc count) start)
  unfolding kalloc_init
  kalloc_init-IsFree ne room fits =
      let (last, run, is) =
        init_loop-IsLinked end count (end / 4096 + 2) (start + 4096) start 0 k.mem
          (record { past = omega arith; last = omega arith; fits = omega arith }) (omega arith) ne
          refl (λ empty. absurd (omega arith)) in
      (
        record { mem = set_next last.1 last.0 0; page_frame_linked_list = start },
        ground (arith, run),
        record {
          chain = (refl, ne, is.linked);
          apart = frames-AllApart (suc count) start;
          small = frames-lt (suc count) start (2 ^ 64) (omega arith);
        },
      )

  -- From a start that is not NULL, with more than a frame between it and an end that is more than a
  -- frame below `2 ^ 64`, `kalloc_init` puts a frame last on its list that starts at or below the
  -- end and whose last byte lies at or above it.
  kalloc_init_overruns :
      start ≢ 0
      → start + 4096 < end
      → end + 4096 < 2 ^ 64
      → (k' : Kernel) × (kalloc_init start end k ≡ some k')
        × IsFree k' (frames count start ++ (start + 4096 * count) ∷ [])
        × (start + 4096 * count ≤ end)
        × (end < start + 4096 * count + 4096)
  kalloc_init_overruns ne room fits =
      let (k', run, free) = kalloc_init-IsFree ne room fits in
      (k', run, subst (IsFree k') (frames-snoc count start) free, omega arith, omega arith)
