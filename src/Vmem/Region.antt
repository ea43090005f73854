-- ===== src/Vmem/Region.antt =====
-- kernel/vmem.c, lines 183 to 280: regions of pages are mapped and unmapped, and tables freed. The
-- code passes addresses of pages to `kfree`, which takes a pointer to a pointer: `kfree_at`.
pub mod Returns
pub mod Free
use skinny_arm.Base.{
  ℕ, zero, suc, ◌+◌, ◌-◌, ◌*◌, ◌/◌, ◌%◌, ◌^◌, Bool, true, false, ◌||◌, not, Option, none, some,
  List, [], ◌∷◌, get_or, ltb, ◌==◌, if◌then◌else◌,
}
use skinny_arm.Memory.{Mem, load64}
use skinny_arm.Kalloc.{page_size, Kernel, kfree_at}
use skinny_arm.Pte.{get_page_set, get_physical_addr}
use skinny_arm.Vmem.{entry_of, write_entry, map_page}

-- The first `for` of `free_page`, with `n` rounds left, `level` being `levels[i]`: `levels[i]` to
-- `levels[4]`. Each round tests an entry of `levels[0]`.
unfoldable pub find_levels : (n i root level va : ℕ) → Mem → Option (List ℕ)
find_levels zero i root level va m = some (level ∷ [])
find_levels (suc n) i root level va m =
    let rest : Option (List ℕ) =
      elim (find_levels n (i + 1) root (get_physical_addr (entry_of m level va i)) va m) [
        | none ↦ none
        | some levels ↦ some (level ∷ levels)
      ] in
    if get_page_set (entry_of m root va i) == 0 then none else rest

-- The inner `for`, with `n` entries left from `j` on: is one of them set?
unfoldable pub table_used : (n j table : ℕ) → Mem → Bool
table_used zero j table m = false
table_used (suc n) j table m =
    let rest = table_used n (j + 1) table m in
    if get_page_set (load64 m (table + 8 * j)) == 0 then rest else true

-- The last `for`, at `i` one below the first argument.
unfoldable pub free_tables : ℕ → (levels : List ℕ) (va : ℕ) → Kernel → Kernel
free_tables zero levels va k = k
free_tables (suc i) levels va k =
    let table = get_or levels i 0 in
    let k' = write_entry table va i 0 k in
    let rest = free_tables i levels va (kfree_at table k') in
    if table_used 512 0 table k'.mem then k' else rest

unfoldable pub free_page : (pagetable va : ℕ) → Kernel → Kernel
free_page pagetable va k = elim (find_levels 4 0 pagetable pagetable va k.mem) [
  | none ↦ k
  | some levels ↦ free_tables 4 levels va (kfree_at (get_or levels 4 0) k)
]

-- The `while` of `unmap_region` on fuel.
unfoldable pub unmap_loop : (fuel pagetable va_start va_end : ℕ) → Kernel → Option Kernel
unmap_loop zero pagetable va va_end k = none
unmap_loop (suc fuel) pagetable va va_end k =
    let rest =
      unmap_loop fuel pagetable ((va + page_size) % 2 ^ 64) va_end (free_page pagetable va k) in
    if ltb va va_end then rest else some k

-- `none` only if the fuel runs out.
unfoldable pub unmap_region : (pagetable va_start va_end : ℕ) → Kernel → Option Kernel
unmap_region pagetable va_start va_end k =
    unmap_loop (suc (va_end / page_size + 1)) pagetable va_start va_end k

-- The `return -1` of the `while` of `map_region`
unfoldable pub unmapped : Option Kernel → Option (Bool × Kernel)
unmapped none = none
unmapped (some k) = some (false, k)

-- The `while` of `map_region` on fuel.
unfoldable pub map_loop :
    (fuel pagetable va_start va_end va_curr pa_start kind : ℕ) → Kernel → Option (Bool × Kernel)
map_loop zero pagetable va_start va_end va_curr pa kind k = none
map_loop (suc fuel) pagetable va_start va_end va_curr pa kind k = elim (ltb va_curr va_end) [
  | false ↦ some (true, k)
  | true ↦
      let (mapped, k') = map_page pagetable va_curr pa kind k in
      elim mapped [
        | true ↦
            map_loop fuel pagetable va_start va_end ((va_curr + page_size) % 2 ^ 64)
              ((pa + page_size) % 2 ^ 64) kind k'
        | false ↦ unmapped (unmap_region pagetable va_start va_curr k')
      ]
]

-- `map_region`: false for -1, and true where it ends without a `return`. `none` only if the fuel
-- runs out.
unfoldable pub map_region :
    (pagetable va_start pa_start size kind : ℕ) → Kernel → Option (Bool × Kernel)
map_region pagetable va_start pa_start size kind k =
    let va_end = (va_start + size) % 2 ^ 64 in
    if not (va_start % page_size == 0)
      || not (va_end % page_size == 0)
      || not (pa_start % page_size == 0)
    then some (false, k)
    else map_loop (suc (va_end / page_size + 1)) pagetable va_start va_end va_start pa_start kind k

-- A `for` of `free_pagetable` with `depth` tables below it, this one included, and `n` entries left
-- from `j` on.
unfoldable pub free_entries : (depth n j table : ℕ) → Kernel → Kernel
free_entries zero n j table k = k
free_entries (suc depth) zero j table k = k
free_entries (suc depth) (suc n) j table k =
    let pentry = load64 k.mem (table + 8 * j) in
    let child = get_physical_addr pentry in
    elim (get_page_set pentry == 0) [
      | true ↦ free_entries (suc depth) n (j + 1) table k
      | false ↦
          free_entries (suc depth) n (j + 1) table
            (kfree_at child (free_entries depth 512 0 child k))
    ]

unfoldable pub free_pagetable : (pagetable : ℕ) → Kernel → Kernel
free_pagetable pagetable k = kfree_at pagetable (free_entries 4 512 0 pagetable k)
