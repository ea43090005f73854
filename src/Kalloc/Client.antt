-- ===== src/Kalloc/Client.antt =====
-- A client of kernel/kalloc.c, which may call it and use the pages that it owns in any order.
use skinny_arm.Base.{ℕ, ◌+◌, ◌%◌, Option, none, some, List, [], ◌∷◌, get_elem?, remove}
use skinny_arm.Memory.{store8}
use skinny_arm.Kalloc.{Kernel, kalloc, kfree}

-- What a client does: it takes a page, gives back its `i`th page, or writes and reads a byte of it. An
-- offset is taken modulo the page's size, so that a client stays inside its pages.
pub data Op : Type 0 where
  alloc : Op
  free : (i : ℕ) → Op
  write : (i offset v : ℕ) → Op
  read : (i offset : ℕ) → Op

-- The client of the code: the kernel, and the frames that the client owns.
pub record Client : Type 0 where
  pub kernel : Kernel
  pub owned : List ℕ

-- A step of the client, with what it sees: the frame it was given, or the byte it read.
unfoldable pub step : Op → Client → Option ℕ × Client
step alloc c = elim (kalloc c.kernel) [
  | none ↦ (none, c)
  | some (f, k) ↦ (some f, record { kernel = k; owned = f ∷ c.owned })
]
step (free i) c = elim (get_elem? c.owned i) [
  | none ↦ (none, c)
  | some f ↦ (none, record { kernel = kfree f c.kernel; owned = remove c.owned i })
]
step (write i offset v) c = elim (get_elem? c.owned i) [
  | none ↦ (none, c)
  | some f ↦ (
    none,
    record {
      kernel = record {
        mem = store8 c.kernel.mem (f + offset % 4096) v;
        page_frame_linked_list = c.kernel.page_frame_linked_list;
      };
      owned = c.owned;
    },
  )
]
step (read i offset) c = elim (get_elem? c.owned i) [
  | none ↦ (none, c)
  | some f ↦ (some (c.kernel.mem (f + offset % 4096)), c)
]

unfoldable pub run : List Op → Client → List (Option ℕ)
run [] c = []
run (op ∷ ops) c = let (seen, c') = step op c in seen ∷ run ops c'
