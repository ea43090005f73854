-- ===== src/Kalloc/Refine.antt =====
-- kernel/kalloc.c's free list and the pages that its client owns behave as the pool of them.
use skinny_arm.Base.{
  ℕ, suc, ◌+◌, ◌%◌, ◌^◌, ◌<◌, ◌≡◌, ◌≢◌, inl, inr, refl, ap, ap₂, ◌∙◌, none, some, List, [], ◌∷◌,
  get_elem?, remove, arith, Option-cases,
}
use skinny_arm.Kalloc.{Kernel, kfree, kalloc_init}
use skinny_arm.Kalloc.Init.{frames, count, kalloc_init-IsFree}
use skinny_arm.Kalloc.FreeList.{IsFree, Chain-frame, kalloc-cons, kalloc-nil, kfree-cons}
use skinny_arm.Kalloc.Client.{Op, alloc, free, write, read, Client, step, run}
use skinny_arm.Kalloc.Pages.{
  ArePages, frames_of, Apart-sym, ArePages-frame, ArePages-get, ArePages-remove, ArePages-write,
  store8-SameOutside, get_elem?-frames_of, remove-frames_of, set-frames_of,
  ready-ArePages-ApartFrom,
}
use skinny_arm.Kalloc.Pool
use skinny_arm.Kalloc.Pool.{Page, Pool, zero_page, put_byte}

-- The client's frames and memory hold the pool `p`.
pub record IsPool (c : Client) (p : Pool) : Type 0 where
  pub ready : IsFree c.kernel p.ready
  pub frames : c.owned ≡ frames_of p.owned
  pub pages : ArePages c.kernel.mem p.ready p.owned

-- A step of the code shows what the step of the pool shows, and the pool is still held.
abbrev pub Refines : Op → Client → Pool → Type 0
Refines op c p = ((step op c).0 ≡ (Pool.step op p).0) × IsPool (step op c).1 (Pool.step op p).1

step-alloc :
    (c : Client) (fs : List ℕ) (gs : List Page)
    → IsPool c (record { ready = fs; owned = gs })
    → Refines alloc c (record { ready = fs; owned = gs })
unfolding step Pool.step
step-alloc c [] gs is = rw (kalloc-nil c.kernel is.ready, step) (refl, is)
step-alloc c (f ∷ fs) gs is =
    let (k, run, taken) = kalloc-cons c.kernel f fs is.ready in
    rw (run, step)
      (
        refl,
        record {
          ready = taken.free;
          frames = ap (λ fs. f ∷ fs) is.frames;
          pages = (
            record {
              real = is.ready.chain.1;
              small = is.ready.small.0;
              apart = is.ready.apart.0;
              bytes = λ x lo. taken.zeroed (f + x) (ground arith);
            },
            ready-ArePages-ApartFrom c.kernel.mem f fs gs is.pages,
            ArePages-frame c.kernel.mem k.mem f (f ∷ fs) fs gs is.pages
                (ready-ArePages-ApartFrom c.kernel.mem f fs gs is.pages) taken.same
                (λ g off page. page.apart.1),
          );
        },
      )

owned-IsPool-none :
    (c : Client) (p : Pool) (i : ℕ)
    → IsPool c p
    → get_elem? p.owned i ≡ none
    → get_elem? c.owned i ≡ none
owned-IsPool-none c p i is e =
    ap (λ fs. get_elem? fs i) is.frames ∙ get_elem?-frames_of p.owned i ∙ rw e refl

owned-IsPool-some :
    (c : Client) (p : Pool) (i : ℕ) (g : Page)
    → IsPool c p
    → get_elem? p.owned i ≡ some g
    → get_elem? c.owned i ≡ some g.frame
owned-IsPool-some c p i g is e =
    ap (λ fs. get_elem? fs i) is.frames ∙ get_elem?-frames_of p.owned i ∙ rw e refl

step-free : (c : Client) (p : Pool) (i : ℕ) → IsPool c p → Refines (free i) c p
unfolding step Pool.step
step-free c p i is = elim (Option-cases (get_elem? p.owned i)) [
  | inl e ↦ rw (owned-IsPool-none c p i is e, step, e, Pool.step) (refl, is)
  | inr (g, e) ↦
      let page = ArePages-get c.kernel.mem p.ready p.owned i g e is.pages in
      let (off, rest) = ArePages-remove c.kernel.mem p.ready p.owned i g e is.pages in
      let (freed, zeroed, same) =
        kfree-cons c.kernel g.frame p.ready is.ready page.real page.small page.apart in
      rw (owned-IsPool-some c p i g is e, step, e, Pool.step)
        (
          refl,
          record {
            ready = freed;
            frames = ap (λ fs. remove fs i) is.frames ∙ remove-frames_of p.owned i;
            pages =
                ArePages-frame c.kernel.mem (kfree g.frame c.kernel).mem g.frame p.ready
                  (g.frame ∷ p.ready) (remove p.owned i) rest off same
                  (λ h off' is'. (Apart-sym g.frame h.frame off', is'.apart));
          },
        )
]

step-write : (c : Client) (p : Pool) (i offset v : ℕ) → IsPool c p → Refines (write i offset v) c p
unfolding step Pool.step
step-write c p i offset v is = elim (Option-cases (get_elem? p.owned i)) [
  | inl e ↦ rw (owned-IsPool-none c p i is e, step, e, Pool.step) (refl, is)
  | inr (g, e) ↦
      let page = ArePages-get c.kernel.mem p.ready p.owned i g e is.pages in
      let inside : offset % 4096 < 4096 = omega arith in
      rw (owned-IsPool-some c p i g is e, step, e, Pool.step)
        (
          refl,
          record {
            ready = record {
              chain =
                  Chain-frame c.kernel.mem _ g.frame _ p.ready is.ready.chain page.apart
                    (store8-SameOutside c.kernel.mem g.frame (offset % 4096) v inside);
              apart = is.ready.apart;
              small = is.ready.small;
            };
            frames = is.frames ∙ set-frames_of p.owned i g (offset % 4096) v e;
            pages =
                ArePages-write c.kernel.mem p.ready p.owned i (offset % 4096) v g inside e is.pages;
          },
        )
]

step-read : (c : Client) (p : Pool) (i offset : ℕ) → IsPool c p → Refines (read i offset) c p
unfolding step Pool.step
step-read c p i offset is = elim (Option-cases (get_elem? p.owned i)) [
  | inl e ↦ rw (owned-IsPool-none c p i is e, step, e, Pool.step) (refl, is)
  | inr (g, e) ↦
      let page = ArePages-get c.kernel.mem p.ready p.owned i g e is.pages in
      rw (owned-IsPool-some c p i g is e, step, e, Pool.step)
        (ap some (page.bytes (offset % 4096) (omega arith)), is)
]

pub step-Refines : (op : Op) (c : Client) (p : Pool) → IsPool c p → Refines op c p
step-Refines alloc c p is = step-alloc c p.ready p.owned is
step-Refines (free i) c p is = step-free c p i is
step-Refines (write i offset v) c p is = step-write c p i offset v is
step-Refines (read i offset) c p is = step-read c p i offset is

run_refines : (ops : List Op) (c : Client) (p : Pool) → IsPool c p → run ops c ≡ Pool.run ops p
unfolding run Pool.run
run_refines [] c p is = refl
run_refines (op ∷ ops) c p is =
    let (seen, is') = step-Refines op c p is in
    ap₂ ◌∷◌ seen (run_refines ops (step op c).1 (Pool.step op p).1 is')

-- From a start that is not NULL, with more than a frame between it and an end that is more than a
-- frame below `2 ^ 64`, `kalloc_init` ends, and no client can tell the allocator behind it from a pool
-- of private pages. For each sequence of `kalloc`s, of `kfree`s of pages that the client owns, and of
-- writes and reads of their bytes, it is given the pool's frames, in the pool's order and none while the
-- pool is empty, and it reads the pool's bytes: 0 from a fresh page, and else what it last wrote there,
-- whatever it did to its other pages.
pub kalloc_init_refines :
    (ops : List Op) (start end : ℕ) (k : Kernel)
    → start ≢ 0
    → start + 4096 < end
    → end + 4096 < 2 ^ 64
    → (k' : Kernel) × (kalloc_init start end k ≡ some k')
      × (run ops (record { kernel = k'; owned = [] })
          ≡ Pool.run ops (record { ready = frames (suc (count start end k)) start; owned = [] }))
kalloc_init_refines ops start end k ne room fits =
    let (k', booted, is) = kalloc_init-IsFree start end k ne room fits in
    (k', booted, run_refines ops _ _ (record { ready = is; frames = refl; pages = tt }))
