-- ===== src/Vmem.antt =====
-- kernel/vmem.c, lines 91 to 180: the walk of a four-level page table that fills in what is missing,
-- and the mapping of a page on top of it.
pub mod Translate
mod Leads
pub mod Walk
pub mod Mapping
pub mod Success
pub mod Lookup
pub mod Keeps
pub mod Space
pub mod Region
pub mod KernelTable
pub mod UserCopy
pub mod Clone
use skinny_arm.Base.{
  ℕ, zero, suc, ◌+◌, ◌-◌, ◌*◌, ◌%◌, ◌^◌, Bool, true, false, ◌&&◌, ◌||◌, not, Option, none, some,
  ltb, ◌==◌, if◌then◌else◌,
}
use skinny_arm.Memory.{Mem, store64, load64}
use skinny_arm.Kalloc.{page_size, Kernel, kalloc, kfree, kfree_at}
use skinny_arm.Pte.{
  lvl_addr, get_page_set, get_physical_addr, pgdpud_entry, pmd_entry, kernel_entry, device_entry,
  user_entry,
}

-- `&pagetable[LVL_ADDR(va, i)]`
unfoldable pub slot : (pagetable va i : ℕ) → ℕ
slot pagetable va i = pagetable + 8 * lvl_addr va i

-- `pagetable[LVL_ADDR(va, i)]`
abbrev pub entry_of : Mem → (pagetable va i : ℕ) → ℕ
entry_of m pagetable va i = load64 m (slot pagetable va i)

-- The first `switch (kind)`: the entry for a given page.
unfoldable pub mapped_entry : (kind pa : ℕ) → Option ℕ
mapped_entry kind pa =
    if kind == 0
    then some (pgdpud_entry 0 pa)
    else if kind == 1
    then some (device_entry 0 pa)
    else if kind == 2
    then some (user_entry 0 pa)
    else none

-- The inner `switch (kind)`: the entry for a page that was just allocated.
unfoldable pub leaf_entry : (kind frame : ℕ) → Option ℕ
leaf_entry kind frame =
    if kind == 0
    then some (kernel_entry 0 frame)
    else if kind == 1
    then some (device_entry 0 frame)
    else if kind == 2
    then some (user_entry 0 frame)
    else none

-- `switch (i)`
unfoldable pub allocated_entry : (i kind frame : ℕ) → Option ℕ
allocated_entry i kind frame =
    if i == 0 || i == 1
    then some (pgdpud_entry 0 frame)
    else if i == 2
    then some (pmd_entry 0 frame)
    else if i == 3
    then leaf_entry kind frame
    else none

-- What one round of the `for` does: return a frame (0 is NULL), or go on to the next level.
pub data Round : Type 0 where
  return : ℕ → Kernel → Round
  descend : ℕ → Kernel → Round

-- `pagetable[LVL_ADDR(va, i)] = pentry`
abbrev pub write_entry : (pagetable va i pentry : ℕ) → Kernel → Kernel
write_entry pagetable va i pentry k = record k { mem = store64 k.mem (slot pagetable va i) pentry }

-- `pagetable = GET_PHYSICAL_ADDR(pagetable[LVL_ADDR(va, i)])`
unfoldable pub follow : (pagetable va i : ℕ) → Kernel → Round
follow pagetable va i k = descend (get_physical_addr (entry_of k.mem pagetable va i)) k

unfoldable pub map_leaf : (pagetable va i pa : ℕ) → Option ℕ → Kernel → Round
map_leaf pagetable va i pa none k = return 0 k
map_leaf pagetable va i pa (some pentry) k = return pa (write_entry pagetable va i pentry k)

unfoldable pub install : (pagetable va i frame : ℕ) → Option ℕ → Kernel → Round
unfolding follow
install pagetable va i frame none k = return 0 (kfree frame k)
install pagetable va i frame (some pentry) k =
    follow pagetable va i (write_entry pagetable va i pentry k)

unfoldable pub allocate : (pagetable va i kind : ℕ) → Option (ℕ × Kernel) → Kernel → Round
unfolding install
allocate pagetable va i kind none k = return 0 k
allocate pagetable va i kind (some (frame, k')) k =
    install pagetable va i frame (allocated_entry i kind frame) k'

unfoldable pub round : (pagetable va pa kind i : ℕ) → Kernel → Round
unfolding map_leaf allocate follow
round pagetable va pa kind i k =
    if get_page_set (entry_of k.mem pagetable va i) == 0
    then if i == 3 && not (pa == 0)
      then map_leaf pagetable va i pa (mapped_entry kind pa) k
      else allocate pagetable va i kind (kalloc k) k
    else follow pagetable va i k

-- The `for`, with `n` rounds left; behind it the last `pagetable` is the frame.
unfoldable pub walk : (n i pagetable va pa kind : ℕ) → Kernel → ℕ × Kernel
walk zero i pagetable va pa kind k = (pagetable, k)
walk (suc n) i pagetable va pa kind k = elim (round pagetable va pa kind i k) [
  | return frame k' ↦ (frame, k')
  | descend pagetable' k' ↦ walk n (i + 1) pagetable' va pa kind k'
]

unfoldable pub get_physical_page : (pagetable va pa kind : ℕ) → Kernel → ℕ × Kernel
get_physical_page pagetable va pa kind k = walk 4 0 pagetable va pa kind k

-- True for 0, false for -1.
unfoldable pub map_page : (pagetable va pa kind : ℕ) → Kernel → Bool × Kernel
map_page pagetable va pa kind k =
    let (frame, k') = get_physical_page pagetable va pa kind k in (not (frame == 0), k')
