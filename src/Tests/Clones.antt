-- ===== src/Tests/Clones.antt =====
-- `clone_pagetable` of the empty table of the small machine.
use skinny_arm.Base.{◌≡◌, ap, true, Bool, arith}
use skinny_arm.Kalloc.{Kernel}
use skinny_arm.Vmem.Clone.{Locals, clone_pagetable, clone_pagetable-ignores}
use skinny_arm.Vmem.Clone.Empty.{SameBeside, IsEmpty, clone_pagetable-of_zero}
use skinny_arm.Tests.Boot.{boot, root, root-zero}

abbrev locals : Locals
locals = record { froms = 0x20000; tos = 0x20028; frame = 0x30000 }

root-IsEmpty : IsEmpty locals root boot
root-IsEmpty = record {
  zeros = root-zero;
  beside_froms = omega arith;
  beside_tos = omega arith;
  apart = omega arith;
  from_fits = omega arith;
  tos_fits = omega arith;
}

clone_pagetable-of_zero_example :
    (k' : Kernel) × (clone_pagetable locals 0x40000 root boot ≡ (true, k'))
    × SameBeside locals boot.mem k'.mem
    × (k'.page_frame_linked_list ≡ boot.page_frame_linked_list)
clone_pagetable-of_zero_example = clone_pagetable-of_zero locals root 0x40000 boot root-IsEmpty

root-cloned : (clone_pagetable locals 0x40000 root boot).0 ≡ true
root-cloned =
    ap (λ (r : Bool × Kernel). r.0)
      (clone_pagetable-of_zero locals root 0x40000 boot root-IsEmpty).1

clone_pagetable-ignores_example :
    clone_pagetable locals 0x50000 root boot ≡ clone_pagetable locals 0x40000 root boot
clone_pagetable-ignores_example =
    clone_pagetable-ignores locals root 0x40000 0x50000 boot root-cloned
