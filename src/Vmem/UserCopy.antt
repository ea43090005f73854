-- ===== src/Vmem/UserCopy.antt =====
-- kernel/vmem.c, lines 388 to 425: copies between user and kernel memory. `va` is a pointer to 64-bit
-- words, so that `va += PageSize` adds 8 times as many bytes. `strcpy` counts in an `int`, which
-- reaches every size below 2 ^ 31.
use skinny_arm.Base.{
  ℕ, zero, suc, ◌+◌, ◌-◌, ◌*◌, ◌/◌, ◌%◌, ◌^◌, ◌<◌, ◌≤◌, ◌≡◌, refl, true, Option, none, some, arith,
  ltb, ◌==◌, if◌then◌else◌,
}
use skinny_arm.Str.{IsBytes, strcpy, strcpy_copies_first}
use skinny_arm.Kalloc.{page_size, Kernel}
use skinny_arm.Vmem.{get_physical_page}
use skinny_arm.Vmem.Translate.{lookup}
use skinny_arm.Vmem.Lookup.{map_page-mapped}

-- `strcpy(src, dst, size)` in the kernel's memory
abbrev copy : (src dst size : ℕ) → Kernel → Kernel
copy src dst size k = record k { mem = strcpy src dst size k.mem }

-- The `while` of `copy_from_user` on fuel.
copy_from_loop : (fuel user_pgtb va to size : ℕ) → Kernel → Option Kernel
copy_from_loop zero pt va to size k = none
copy_from_loop (suc fuel) pt va to size k =
    let va' = (va + 8 * page_size) % 2 ^ 64 in
    let to' = (to + size) % 2 ^ 64 in
    let (frame, k') = get_physical_page pt va' 0 2 k in
    let rest =
      copy_from_loop fuel pt va' to' ((size + 2 ^ 64 - page_size) % 2 ^ 64)
        (copy frame to' size k') in
    if size == 0 then some k else rest

-- `none` only if the fuel runs out.
unfoldable pub copy_from_user : (fuel user_pgtb from to size : ℕ) → Kernel → Option Kernel
unfolding copy_from_loop
copy_from_user fuel pt from to size k =
    let va = from / page_size * page_size in
    let (frame, k') = get_physical_page pt va 0 2 k in
    let from' = (frame + from % page_size) % 2 ^ 64 in
    let k'' = copy from' to size k' in
    let rest = copy_from_loop fuel pt va to ((size + 2 ^ 64 - page_size + from') % 2 ^ 64) k'' in
    if ltb ((from' % page_size + size) % 2 ^ 64) page_size then some k'' else rest

-- The `while` of `copy_to_user` on fuel.
copy_to_loop : (fuel user_pgtb va from size : ℕ) → Kernel → Option Kernel
copy_to_loop zero pt va from size k = none
copy_to_loop (suc fuel) pt va from size k =
    let va' = (va + 8 * page_size) % 2 ^ 64 in
    let from' = (from + size) % 2 ^ 64 in
    let (frame, k') = get_physical_page pt va' 0 2 k in
    let rest =
      copy_to_loop fuel pt va' from' ((size + 2 ^ 64 - page_size) % 2 ^ 64)
        (copy from' frame size k') in
    if size == 0 then some k else rest

-- `copy_to_user` tests the kernel's address against the page's end, not the user's.
unfoldable pub copy_to_user : (fuel user_pgtb from to size : ℕ) → Kernel → Option Kernel
unfolding copy_to_loop
copy_to_user fuel pt from to size k =
    let va = to / page_size * page_size in
    let (frame, k') = get_physical_page pt va 0 2 k in
    let to' = (frame + to % page_size) % 2 ^ 64 in
    let k'' = copy from to' size k' in
    let rest = copy_to_loop fuel pt va from ((size + 2 ^ 64 - page_size + to') % 2 ^ 64) k'' in
    if ltb ((from % page_size + size) % 2 ^ 64) page_size then some k'' else rest

-- `copy_from_user` of a range that ends before the last byte of a user page which is mapped to an
-- aligned page `p`, in a memory of bytes: it returns at once, the first byte of the range stands at
-- the target unless the size is 0, and no other byte changes.
pub copy_from_user-within :
    (fuel pt from to size p : ℕ) (k : Kernel)
    → IsBytes k.mem
    → lookup k.mem pt (from / 4096 * 4096) ≡ some p
    → p % 4096 ≡ 0
    → p + 4096 ≤ 2 ^ 64
    → from % 4096 + size < 4096
    → (k' : Kernel) × (copy_from_user fuel pt from to size k ≡ some k')
      × (k'.page_frame_linked_list ≡ k.page_frame_linked_list)
      × ((x : ℕ)
          → k'.mem x
            ≡ (if size == 0 then k.mem x else if x == to then k.mem (p + from % 4096) else k.mem x))
unfolding copy_from_user
copy_from_user-within fuel pt from to size p k bytes hit aligned fits within =
    let run = (map_page-mapped pt (from / 4096 * 4096) 0 2 p k hit).0 in
    let src : (p + from % 4096) % 2 ^ 64 ≡ p + from % 4096 = omega arith in
    let inside : ltb (((p + from % 4096) % 4096 + size) % 2 ^ 64) 4096 ≡ true = ground arith in
    (
      copy (p + from % 4096) to size k,
      rw (run, src, inside) refl,
      refl,
      strcpy_copies_first (p + from % 4096) to size k.mem bytes,
    )
