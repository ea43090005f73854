-- ===== src/Kalloc.antt =====
-- kernel/kalloc.c: the page allocator, a linked list of free 4 KiB frames that is threaded
-- through the first word of each frame.
pub mod FreeList
pub mod Init
pub mod Client
pub mod Pool
pub mod Pages
pub mod Refine
pub mod Conserve
use skinny_arm.Base.{ℕ, zero, suc, ◌+◌, ◌-◌, ◌/◌, Option, none, some, ltb, leb, ◌==◌, if◌then◌else◌}
use skinny_arm.Memory.{Mem, store8, store64, load64}

-- kernel/low_level.h, line 13
abbrev pub page_size : ℕ
page_size = 4096

-- Memory, and the global `page_frame_linked_list`.
pub record Kernel : Type 0 where
  pub mem : Mem
  pub page_frame_linked_list : ℕ

-- `page->next = v` and `page->next`: `next` is the first word of a `struct PageFrame`.
abbrev pub set_next : Mem → ℕ → ℕ → Mem
set_next m page v = store64 m page v

abbrev pub next : Mem → ℕ → ℕ
next m page = load64 m page

-- The `for` of `clear_page`: `n` rounds left, from index `i`. `data` starts 8 bytes into the page.
unfoldable pub clear_data : (n i page : ℕ) → Mem → Mem
clear_data zero i page m = m
clear_data (suc n) i page m = clear_data n (i + 1) page (store8 m (page + 8 + i) 0)

unfoldable pub clear_page : ℕ → Mem → Mem
clear_page page m = clear_data (page_size - 8) 0 page (set_next m page 0)

-- `kfree(&page)` of a local variable `page`
unfoldable pub kfree : ℕ → Kernel → Kernel
kfree page k =
    let m = clear_page page k.mem in
    record { mem = set_next m page k.page_frame_linked_list; page_frame_linked_list = page }

-- `kfree(pp)` of a pointer into memory: `*page` is read again at each use.
unfoldable pub kfree_at : ℕ → Kernel → Kernel
kfree_at pp k =
    let m = clear_page (load64 k.mem pp) k.mem in
    let m' = set_next m (load64 m pp) k.page_frame_linked_list in
    record { mem = m'; page_frame_linked_list = load64 m' pp }

-- `kalloc(&page)` of a local variable: `none` for -1, else what `page` becomes.
unfoldable pub kalloc : Kernel → Option (ℕ × Kernel)
kalloc k =
    let head = k.page_frame_linked_list in
    let rest = next k.mem head in
    if head == 0
    then none
    else some (head, record { mem = clear_page head k.mem; page_frame_linked_list = rest })

-- The `while` of `kalloc_init`, on fuel: its last `current_frame`, and memory.
init_loop :
    (fuel kalloc_end current_address current_frame previous_frame : ℕ) → Mem → Option (ℕ × Mem)
init_loop zero kalloc_end addr frame prev m = none
init_loop (suc fuel) kalloc_end addr frame prev m =
    let linked = if prev == 0 then m else set_next m prev addr in
    let rest = init_loop fuel kalloc_end (addr + page_size) addr addr linked in
    if leb addr kalloc_end then rest else some (frame, m)

-- `current_frame->next = NULL` behind the loop
init_end : ℕ → Option (ℕ × Mem) → Option Kernel
init_end head none = none
init_end head (some (frame, m)) =
    some (record { mem = set_next m frame 0; page_frame_linked_list = head })

-- `none` only if the loop's fuel runs out. Before the loop `current_frame` has no value in the
-- source, and 0 here; the loop sets it, since it runs at least once.
unfoldable pub kalloc_init : (kalloc_start kalloc_end : ℕ) → Kernel → Option Kernel
unfolding init_loop init_end
kalloc_init kalloc_start kalloc_end k =
    if ltb (kalloc_start + page_size) kalloc_end
    then init_end kalloc_start (
        init_loop (kalloc_end / page_size + 2) kalloc_end (kalloc_start + page_size) 0 kalloc_start
          k.mem)
    else some k
