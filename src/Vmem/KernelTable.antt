-- ===== src/Vmem/KernelTable.antt =====
-- kernel/vmem.c, lines 288 to 314: the page table of the kernel. `start` and `end` are the linker's
-- `_start` and `_end`. A `map_region` that ends without a `return` counts as not -1.
use skinny_arm.Base.{
  ℕ, ◌+◌, ◌-◌, ◌%◌, ◌^◌, ◌≤◌, ◌≡◌, refl, Bool, true, false, Option, none, some, arith,
}
use skinny_arm.Kalloc.{Kernel, kalloc}
use skinny_arm.Vmem.Region.{map_region}
use skinny_arm.Vmem.Region.Returns.{map_region-returns}

abbrev pub vkern_start : ℕ
vkern_start = 0xffff000000000000

abbrev pub mmio_base : ℕ
mmio_base = vkern_start + 0x3f000000

abbrev pub mmio_end : ℕ
mmio_end = vkern_start + 0x40000000

-- The devices are mapped: the table, or NULL.
unfoldable pub devices_mapped : (kpagetable : ℕ) → Option (Bool × Kernel) → Option (ℕ × Kernel)
devices_mapped kpagetable none = none
devices_mapped kpagetable (some (false, k)) = some (0, k)
devices_mapped kpagetable (some (true, k)) = some (kpagetable, k)

-- The kernel's image is mapped: the devices follow.
unfoldable pub image_mapped : (kpagetable : ℕ) → Option (Bool × Kernel) → Option (ℕ × Kernel)
unfolding devices_mapped
image_mapped kpagetable none = none
image_mapped kpagetable (some (false, k)) = some (0, k)
image_mapped kpagetable (some (true, k)) =
    devices_mapped kpagetable
      (map_region kpagetable mmio_base (mmio_base - vkern_start) (mmio_end - mmio_base) 1 k)

unfoldable pub make_table : (start end : ℕ) → Kernel → Option (ℕ × Kernel) → Option (ℕ × Kernel)
unfolding image_mapped
make_table start end k none = some (0, k)
make_table start end k (some (pud, k')) =
    let va_start = (vkern_start + start) % 2 ^ 64 in
    let va_end = (vkern_start + end) % 2 ^ 64 in
    image_mapped pud (map_region pud va_start start ((va_end + 2 ^ 64 - va_start) % 2 ^ 64) 0 k')

-- `make_kpagetable`; 0 is NULL, and `none` stands for fuel that runs out in `map_region`.
unfoldable pub make_kpagetable : (start end : ℕ) → Kernel → Option (ℕ × Kernel)
unfolding make_table
make_kpagetable start end k = make_table start end k (kalloc k)

devices_mapped-returns :
    (pt : ℕ) (r : Bool × Kernel) → (out : ℕ × Kernel) × (devices_mapped pt (some r) ≡ some out)
unfolding devices_mapped
devices_mapped-returns pt (false, k) = ((0, k), refl)
devices_mapped-returns pt (true, k) = ((pt, k), refl)

image_mapped-returns :
    (pt : ℕ) (r : Bool × Kernel) → (out : ℕ × Kernel) × (image_mapped pt (some r) ≡ some out)
unfolding image_mapped
image_mapped-returns pt (false, k) = ((0, k), refl)
image_mapped-returns pt (true, k) =
    let (r, run) =
      map_region-returns pt mmio_base (mmio_base - vkern_start) (mmio_end - mmio_base) 1 k
        (omega arith) in
    let (out, done) = devices_mapped-returns pt r in (out, rw run done)

make_table-returns :
    (start end : ℕ) (k : Kernel) (got : Option (ℕ × Kernel))
    → start ≤ end
    → vkern_start + end + 4096 ≤ 2 ^ 64
    → (out : ℕ × Kernel) × (make_table start end k got ≡ some out)
unfolding make_table
make_table-returns start end k none le fits = ((0, k), refl)
make_table-returns start end k (some (pud, k')) le fits =
    let va_start = (vkern_start + start) % 2 ^ 64 in
    let va_end = (vkern_start + end) % 2 ^ 64 in
    let (r, run) =
      map_region-returns pud va_start start ((va_end + 2 ^ 64 - va_start) % 2 ^ 64) 0 k'
        (omega arith) in
    let (out, done) = image_mapped-returns pud r in (out, rw run done)

-- `make_kpagetable` returns, a table or NULL, if the kernel's image ends a page below the end of the
-- address space or lower.
make_kpagetable-returns :
    (start end : ℕ) (k : Kernel)
    → start ≤ end
    → vkern_start + end + 4096 ≤ 2 ^ 64
    → (out : ℕ × Kernel) × (make_kpagetable start end k ≡ some out)
unfolding make_kpagetable
make_kpagetable-returns start end k le fits = make_table-returns start end k (kalloc k) le fits
