-- ===== src/Kalloc/Pool.antt =====
-- What kernel/kalloc.c promises: a pool of private pages.
use skinny_arm.Base.{
  ℕ, ◌%◌, Option, none, some, List, [], ◌∷◌, get_elem?, set, remove, ◌==◌, if◌then◌else◌,
}
use skinny_arm.Kalloc.Client.{Op, alloc, free, write, read}

-- A page of the pool: its number, and its bytes.
pub record Page : Type 0 where
  pub frame : ℕ
  pub byte : ℕ → ℕ

-- The promise: free frames, of which the last one to come back is given out first, and owned pages that
-- share nothing with each other and with the free ones.
pub record Pool : Type 0 where
  pub ready : List ℕ
  pub owned : List Page

abbrev pub zero_page : ℕ → Page
zero_page f = record { frame = f; byte = λ x. 0 }

abbrev pub put_byte : Page → ℕ → ℕ → Page
put_byte g offset v = record {
  frame = g.frame;
  byte = λ x. if x == offset then v % 256 else g.byte x;
}

-- A step of a client on the pool.
unfoldable pub step : Op → Pool → Option ℕ × Pool
step alloc p = elim p.ready [
  | [] ↦ (none, p)
  | f ∷ fs ↦ (some f, record { ready = fs; owned = zero_page f ∷ p.owned })
]
step (free i) p = elim (get_elem? p.owned i) [
  | none ↦ (none, p)
  | some g ↦ (none, record { ready = g.frame ∷ p.ready; owned = remove p.owned i })
]
step (write i offset v) p = elim (get_elem? p.owned i) [
  | none ↦ (none, p)
  | some g ↦
      (none, record { ready = p.ready; owned = set p.owned i (put_byte g (offset % 4096) v) })
]
step (read i offset) p = elim (get_elem? p.owned i) [
  | none ↦ (none, p)
  | some g ↦ (some (g.byte (offset % 4096)), p)
]

unfoldable pub run : List Op → Pool → List (Option ℕ)
run [] p = []
run (op ∷ ops) p = let (seen, p') = step op p in seen ∷ run ops p'
