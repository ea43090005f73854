-- ===== src/Tests/Boot.antt =====
-- A small machine: four free frames from 0x1000 on, and all other memory zero.
use skinny_arm.Base.{ℕ, ◌≡◌, refl, List, All, arith, true}
use skinny_arm.Memory.{Mem, store64, load64, within}
use skinny_arm.Kalloc.{Kernel}
use skinny_arm.Kalloc.FreeList.{IsFree, Apart}
use skinny_arm.Kalloc.Init.{frames}

abbrev pub boot_mem : Mem
boot_mem =
    store64 (store64 (store64 (store64 (λ _. 0) 0x1000 0x2000) 0x2000 0x3000) 0x3000 0x4000) 0x4000
      0

abbrev pub boot : Kernel
boot = record { mem = boot_mem; page_frame_linked_list = 0x1000 }

abbrev pub boot_frames : List ℕ
boot_frames = frames 4 0x1000

pub boot-IsFree : IsFree boot boot_frames
unfolding store64 load64
boot-IsFree = record {
  chain = (refl, omega arith, (refl, omega arith, (refl, omega arith, (refl, omega arith, refl))));
  apart = omega arith;
  small = omega arith;
}

-- An empty root table at 0x10000.
abbrev pub root : ℕ
root = 0x10000

pub root-zero : (x : ℕ) → within root 4096 x ≡ true → boot.mem x ≡ 0
unfolding store64
root-zero x h = ground arith

pub root-Apart : All (Apart root) boot_frames
root-Apart = omega arith
