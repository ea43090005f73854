-- ===== src/Tests/Memory.antt =====
-- The allocator and the entry macros at concrete inputs.
use skinny_arm.Base.{ℕ, suc, ◌+◌, ◌≡◌, refl, none, some, List, [], ◌∷◌, arith}
use skinny_arm.Kalloc.{Kernel, kalloc_init}
use skinny_arm.Kalloc.FreeList.{IsFree}
use skinny_arm.Kalloc.Init.{frames, count, kalloc_init-IsFree}
use skinny_arm.Kalloc.Client.{Op, alloc, free, write, read, run}
use skinny_arm.Kalloc.Pool
use skinny_arm.Kalloc.Conserve.{after, times, kalloc_conserves}
use skinny_arm.Kalloc.Refine.{kalloc_init_refines}
use skinny_arm.Pte.{kernel_entry, device_entry, user_entry}
use skinny_arm.Pte.Entries.{attributes, page_entry_attributes}
use skinny_arm.Tests.Boot.{boot}

-- The kernel's own end of memory, 0x3F000000, with the image ending at 0x80000.
kalloc_init-IsFree_example :
    (k' : Kernel) × (kalloc_init 0x80000 0x3f000000 boot ≡ some k')
    × IsFree k' (frames (suc (count 0x80000 0x3f000000 boot)) 0x80000)
kalloc_init-IsFree_example =
    kalloc_init-IsFree 0x80000 0x3f000000 boot (omega arith) (omega arith) (omega arith)

page_entry_attributes_example :
    (attributes (kernel_entry 0 5) ≡ record {
      user_no_exec = 0;
      kernel_no_exec = 1;
      page_set = 1;
      read_only = 0;
      user_access = 0;
      mair = 1;
      next_level = 0;
      address = 5;
    })
    × (attributes (device_entry 0 5) ≡ record {
      user_no_exec = 0;
      kernel_no_exec = 1;
      page_set = 1;
      read_only = 0;
      user_access = 0;
      mair = 0;
      next_level = 0;
      address = 5;
    })
    × (attributes (user_entry 0 5) ≡ record {
      user_no_exec = 1;
      kernel_no_exec = 1;
      page_set = 1;
      read_only = 0;
      user_access = 1;
      mair = 1;
      next_level = 0;
      address = 5;
    })
page_entry_attributes_example = page_entry_attributes 5 (omega arith)

abbrev calls : List Op
calls =
    alloc ∷ write 0 5 7 ∷ alloc ∷ read 1 5 ∷ write 0 5 8 ∷ read 1 5 ∷ free 1 ∷ alloc ∷ read 0 5 ∷ []

kalloc_init_refines_example :
    (k' : Kernel) × (kalloc_init 0x80000 0x3f000000 boot ≡ some k')
    × (run calls (record { kernel = k'; owned = [] })
        ≡ Pool.run calls
            (record { ready = frames (suc (count 0x80000 0x3f000000 boot)) 0x80000; owned = [] }))
kalloc_init_refines_example =
    kalloc_init_refines calls 0x80000 0x3f000000 boot (omega arith) (omega arith) (omega arith)

-- What the pool of four frames shows: the page that came back is given out again, cleared.
calls_pool :
    Pool.run calls (record { ready = frames 4 0x80000; owned = [] })
    ≡ some 0x80000
      ∷ none
      ∷ some 0x81000
      ∷ some 7
      ∷ none
      ∷ some 7
      ∷ none
      ∷ some 0x80000
      ∷ some 0
      ∷ []
unfolding Pool.run Pool.step
calls_pool = refl

kalloc_conserves_example :
    (k' : Kernel) × (kalloc_init 0x80000 0x3f000000 boot ≡ some k')
    × ((fs : List ℕ) × IsFree (after calls (record { kernel = k'; owned = [] })).kernel fs
        × ((x : ℕ)
            → times x (after calls (record { kernel = k'; owned = [] })).owned + times x fs
              ≡ times x (frames (suc (count 0x80000 0x3f000000 boot)) 0x80000)))
kalloc_conserves_example =
    kalloc_conserves calls 0x80000 0x3f000000 boot (omega arith) (omega arith) (omega arith)
