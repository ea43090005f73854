-- ===== src/Tests/Spaces.antt =====
-- The tables of a whole address space at the small machine, and those that `main` makes.
use skinny_arm.Base.{
  ◌-◌, ℕ, ◌+◌, ◌*◌, ◌/◌, ◌%◌, ◌^◌, ◌≤◌, ◌<◌, ◌≡◌, refl, none, some, List, ◌∷◌, All, length, arith,
  true,
}
use skinny_arm.Kalloc.{Kernel, kalloc_init}
use skinny_arm.Kalloc.FreeList.{IsFree}
use skinny_arm.Vmem.{map_page, get_physical_page}
use skinny_arm.Vmem.Translate.{lookup}
use skinny_arm.Vmem.Mapping.{IsFrame}
use skinny_arm.Vmem.Keeps.{IsAligned}
use skinny_arm.Vmem.Region.{map_region}
use skinny_arm.Vmem.KernelTable.{vkern_start, make_kpagetable}
use skinny_arm.Vmem.Space.Map.{IsPaged, IsKept, OnPage, map_page-IsKept}
use skinny_arm.Vmem.Space.Region.{InRegion, MapsTo, IsMappable, map_region-maps}
use skinny_arm.Vmem.Space.Kernel.{
  IsSpace-of_zero, lookup-of_zero, mapped, IsKernelMap, make_kpagetable-maps,
}
use skinny_arm.Start.{image_start, kalloc_end, enabled, main}
use skinny_arm.Start.Frames.{kalloc_init-frames}
use skinny_arm.Start.Registers.{core_timer_irq_ctrl, core_irq_src}
use skinny_arm.Start.Maps.{image_end, main-maps, main-registers, main-unreachable}
use skinny_arm.Tests.Boot.{boot, boot-IsFree, boot_frames, root, root-zero, root-Apart}

boot-IsPaged : IsPaged boot root boot_frames
boot-IsPaged = record {
  free = boot-IsFree;
  frames = omega arith;
  aligned = omega arith;
  space = IsSpace-of_zero boot.mem root root-zero boot_frames (refl, root-Apart);
}

map_page-IsKept_example :
    IsKept (OnPage 0x400000) 4 boot root boot_frames (map_page root 0x400000 0x9000 2 boot).1
map_page-IsKept_example =
    map_page-IsKept root 0x400000 0x9000 2 boot boot_frames boot-IsPaged (omega arith)

boot-IsMappable : IsMappable boot root 0x400000 1 0x9000 2
boot-IsMappable = record {
  known = omega arith;
  not_null = omega arith;
  fits = omega arith;
  narrow = omega arith;
  unmapped = λ j lt. lookup-of_zero boot.mem root root-zero (0x400000 + 4096 * j);
}

map_region-maps_example :
    (k' : Kernel) × (map_region root 0x400000 0x9000 (4096 * 1) 2 boot ≡ some (true, k'))
    × IsKept (InRegion 0x400000 1) (4 * 1) boot root boot_frames k'
    × MapsTo k' root 0x400000 1 0x9000
map_region-maps_example =
    map_region-maps root 0x400000 1 0x9000 2 boot boot_frames (omega arith) refl refl boot-IsPaged
      boot-IsMappable (omega arith)

-- The frames from 0x90000 up to the devices.
listed :
    (k : Kernel) × (fs : List ℕ) × (kalloc_init 0x90000 0x3f000000 boot ≡ some k)
    × IsFree k (0x90000 ∷ fs)
    × All IsFrame (0x90000 ∷ fs)
    × All IsAligned (0x90000 ∷ fs)
    × (length fs ≡ (0x3f000000 - 0x90000) / 4096)
listed = kalloc_init-frames 0x90000 0x3f000000 boot (omega arith) refl (omega arith) (omega arith)

make_kpagetable-maps_example :
    (k' : Kernel) × (make_kpagetable 0x80000 (0x80000 + 4096 * 16) listed.0 ≡ some (0x90000, k'))
    × IsKernelMap k'.mem 0x90000 0x80000 16
    × ((rest : List ℕ) × IsPaged k' 0x90000 rest
        × (length listed.1 ≤ length rest + 4 * (16 + 4096)))
make_kpagetable-maps_example =
    make_kpagetable-maps 0x80000 16 refl (omega arith) (omega arith) 0x90000 listed.0 listed.1
      listed.3 listed.4 listed.5 (omega (arith, listed.6))

main-maps_example :
    (k' : Kernel) × (main 0 (image_end 16) boot ≡ some (enabled (image_end 16) k'))
    × IsKernelMap k'.mem (image_end 16) image_start 16
    × ((va pa kind : ℕ)
        → mapped image_start 16 (va % 2 ^ 48) ≡ true
        → get_physical_page (image_end 16) va pa kind k' ≡ (va % 2 ^ 48 / 4096 * 4096, k'))
    × ((rest : List ℕ) × IsPaged k' (image_end 16) rest)
main-maps_example = main-maps 16 boot (omega arith)

main-registers_example :
    (k' : Kernel) × (main 0 (image_end 16) boot ≡ some (enabled (image_end 16) k'))
    × ((core : ℕ)
        → core < 4
        → (lookup k'.mem (image_end 16) (core_timer_irq_ctrl core) ≡ none)
          × (lookup k'.mem (image_end 16) (core_irq_src core) ≡ none))
main-registers_example = main-registers 16 boot (omega arith)

main-unreachable_example :
    (k' : Kernel) × (main 0 (image_end 16) boot ≡ some (enabled (image_end 16) k'))
    × ((x : ℕ)
        → image_end 16 ≤ x
        → x < kalloc_end
        → (lookup k'.mem (image_end 16) x ≡ none)
          × (lookup k'.mem (image_end 16) (vkern_start + x) ≡ none))
main-unreachable_example = main-unreachable 16 boot (omega arith)
