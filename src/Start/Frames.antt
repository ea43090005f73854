-- ===== src/Start/Frames.antt =====
-- The frames in a row that `kalloc_init` lists.
use skinny_arm.Base.{
  ◌≢◌, ◌-◌, ◌/◌, some, ℕ, zero, suc, ◌+◌, ◌*◌, ◌%◌, ◌^◌, ◌≤◌, ◌<◌, ◌≡◌, refl, List, ◌∷◌, All,
  length, arith,
}
use skinny_arm.Kalloc.{Kernel, kalloc_init}
use skinny_arm.Kalloc.FreeList.{IsFree}
use skinny_arm.Kalloc.Init.{frames, count, kalloc_init-IsFree}
use skinny_arm.Vmem.Mapping.{IsFrame}
use skinny_arm.Vmem.Keeps.{IsAligned}

length-frames : (n a : ℕ) → length (frames n a) ≡ n
length-frames zero a = refl
length-frames (suc n) a = omega (arith, length-frames n (a + 4096))

frames-IsFrame : (n a : ℕ) → a + 4096 * n ≤ 2 ^ 36 → All IsFrame (frames n a)
frames-IsFrame zero a fits = tt
frames-IsFrame (suc n) a fits = (omega arith, frames-IsFrame n (a + 4096) (omega arith))

frames-IsAligned : (n a : ℕ) → a % 4096 ≡ 0 → All IsAligned (frames n a)
frames-IsAligned zero a aligned = tt
frames-IsAligned (suc n) a aligned = (aligned, frames-IsAligned n (a + 4096) (omega arith))

-- `kalloc_init` on a page's boundary, with an end that is a page below `2 ^ 36` or lower: a first frame and as
-- many others as pages fit.
pub kalloc_init-frames :
    (start end : ℕ) (k : Kernel)
    → start ≢ 0
    → start % 4096 ≡ 0
    → start + 4096 < end
    → end + 4096 ≤ 2 ^ 36
    → (k' : Kernel) × (fs : List ℕ) × (kalloc_init start end k ≡ some k')
      × IsFree k' (start ∷ fs)
      × All IsFrame (start ∷ fs)
      × All IsAligned (start ∷ fs)
      × (length fs ≡ (end - start) / 4096)
kalloc_init-frames start end k ne aligned room fits =
    let n = count start end k in
    let (k', run, free) = kalloc_init-IsFree start end k ne room (omega arith) in
    (
      k',
      frames n (start + 4096),
      run,
      free,
      frames-IsFrame (suc n) start (omega arith),
      frames-IsAligned (suc n) start aligned,
      length-frames n (start + 4096),
    )
