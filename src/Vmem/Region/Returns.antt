-- ===== src/Vmem/Region/Returns.antt =====
-- The loops of kernel/vmem.c's `unmap_region` and `map_region`.
use skinny_arm.Base.{
  ℕ, zero, suc, ◌+◌, ◌*◌, ◌/◌, ◌%◌, ◌^◌, ◌≤◌, ◌<◌, ◌≡◌, ◌≢◌, refl, ap, ◌∙◌, Bool, true, false, ◌||◌,
  not, Bool-cases, inl, inr, some, arith, ltb, ◌==◌, eq→==, ne→==,
}
use skinny_arm.Kalloc.{Kernel}
use skinny_arm.Vmem.{map_page}
use skinny_arm.Vmem.Translate.{lookup}
use skinny_arm.Vmem.Lookup.{map_page-mapped}
use skinny_arm.Vmem.Region.{free_page, unmap_loop, unmap_region, unmapped, map_loop, map_region}

unmap_loop-returns :
    (fuel pt va va_end : ℕ) (k : Kernel)
    → va_end + 4096 ≤ 2 ^ 64
    → va_end ≤ va + 4096 * fuel
    → (k' : Kernel) × (unmap_loop (suc fuel) pt va va_end k ≡ some k')
unfolding unmap_loop
unmap_loop-returns zero pt va va_end k fits enough = (k, ground (arith))
unmap_loop-returns (suc fuel) pt va va_end k fits enough = elim (Bool-cases (ltb va va_end)) [
  | inr done ↦ (k, rw done refl)
  | inl more ↦
      let (k', run) =
        unmap_loop-returns fuel pt ((va + 4096) % 2 ^ 64) va_end (free_page pt va k) fits
          (ground (arith, more)) in
      (k', rw more run)
]

-- `unmap_region` returns, if the region's end is a page below the end of the address space or lower.
pub unmap_region-returns :
    (pt va_start va_end : ℕ) (k : Kernel)
    → va_end + 4096 ≤ 2 ^ 64
    → (k' : Kernel) × (unmap_region pt va_start va_end k ≡ some k')
unfolding unmap_region
unmap_region-returns pt va va_end k fits =
    unmap_loop-returns (va_end / 4096 + 1) pt va va_end k fits (omega arith)

map_loop-returns :
    (fuel pt va_start va_end va pa kind : ℕ) (k : Kernel)
    → va_end + 4096 ≤ 2 ^ 64
    → va_end ≤ va + 4096 * fuel
    → (r : Bool × Kernel) × (map_loop (suc fuel) pt va_start va_end va pa kind k ≡ some r)
unfolding map_loop unmapped
map_loop-returns zero pt va_start va_end va pa kind k fits enough =
    let done : ltb va va_end ≡ false = ground arith in ((true, k), rw (done, map_loop) refl)
map_loop-returns (suc fuel) pt va_start va_end va pa kind k fits enough =
    elim (Bool-cases (ltb va va_end)) [
      | inr done ↦ ((true, k), rw (done, map_loop) refl)
      | inl more ↦ elim (Bool-cases (map_page pt va pa kind k).0) [
        | inl mapped ↦
            let (r, run) =
              map_loop-returns fuel pt va_start va_end ((va + 4096) % 2 ^ 64) ((pa + 4096) % 2 ^ 64)
                kind (map_page pt va pa kind k).1 fits (ground (arith, more)) in
            (r, rw (more, mapped, map_loop) run)
        | inr failed ↦
            let (k', run) =
              unmap_region-returns pt va_start va (map_page pt va pa kind k).1
                (ground (arith, more)) in
            ((false, k'), rw (more, failed, run, map_loop) refl)
      ]
    ]

-- `map_region` returns, whatever the table, the pages and the kind, if the region ends a page below
-- the end of the address space or lower.
pub map_region-returns :
    (pt va_start pa_start size kind : ℕ) (k : Kernel)
    → va_start + size + 4096 ≤ 2 ^ 64
    → (r : Bool × Kernel) × (map_region pt va_start pa_start size kind k ≡ some r)
unfolding map_region
map_region-returns pt va pa size kind k fits =
    elim (Bool-cases
      (not (va % 4096 == 0) || not ((va + size) % 2 ^ 64 % 4096 == 0) || not (pa % 4096 == 0))) [
        | inl misaligned ↦ ((false, k), rw misaligned refl)
        | inr aligned ↦
            let (r, run) =
              map_loop-returns ((va + size) % 2 ^ 64 / 4096 + 1) pt va ((va + size) % 2 ^ 64) va pa
                kind k (omega arith) (omega arith) in
            (r, rw aligned run)
      ]

-- Each page from `va` on below `va_end` translates, to a page that is not NULL.
abbrev pub IsMappedRegion : (pt va va_end : ℕ) → Kernel → Type 0
IsMappedRegion pt va va_end k =
    (a : ℕ) → va ≤ a → a < va_end → a % 4096 ≡ 0 → (p : ℕ) × (lookup k.mem pt a ≡ some p) × (p ≢ 0)

map_loop-mapped :
    (fuel pt va_start va_end va pa kind : ℕ) (k : Kernel)
    → va_end + 4096 ≤ 2 ^ 64
    → va_end ≤ va + 4096 * fuel
    → va % 4096 ≡ 0
    → IsMappedRegion pt va va_end k
    → map_loop (suc fuel) pt va_start va_end va pa kind k ≡ some (true, k)
unfolding map_loop
map_loop-mapped zero pt va_start va_end va pa kind k fits enough aligned all =
    let done : ltb va va_end ≡ false = ground arith in rw (done, map_loop) refl
map_loop-mapped (suc fuel) pt va_start va_end va pa kind k fits enough aligned all =
    elim (Bool-cases (ltb va va_end)) [
      | inr done ↦ rw (done, map_loop) refl
      | inl more ↦
          let (p, hit, ne) = all va (omega arith) (ground (arith, more)) aligned in
          let run = (map_page-mapped pt va pa kind p k hit).1 in
          let mapped : (map_page pt va pa kind k).0 ≡ true =
            ap (λ (r : Bool × Kernel). r.0) run ∙ ap not (ne→== p 0 ne) in
          let same : (map_page pt va pa kind k).1 ≡ k = ap (λ (r : Bool × Kernel). r.1) run in
          let rest =
            map_loop-mapped fuel pt va_start va_end ((va + 4096) % 2 ^ 64) ((pa + 4096) % 2 ^ 64)
              kind k fits (ground (arith, more)) (ground (arith, more))
              λ a lo hi. all a (ground (arith, more, lo)) hi in
          rw (more, mapped, map_loop)
            (ap
                (λ q.
                  map_loop (suc fuel) pt va_start va_end ((va + 4096) % 2 ^ 64)
                    ((pa + 4096) % 2 ^ 64) kind q)
                same
              ∙ rest)
    ]

-- `map_region` of aligned addresses and an aligned size, where each page of the region is mapped
-- already to a page that is not NULL, and the region ends a page below the end of the address space
-- or lower: it runs to its end and changes nothing, so that the old pages stay, whatever pages were
-- asked for.
map_region-mapped :
    (pt va_start pa_start size kind : ℕ) (k : Kernel)
    → va_start + size + 4096 ≤ 2 ^ 64
    → va_start % 4096 ≡ 0
    → size % 4096 ≡ 0
    → pa_start % 4096 ≡ 0
    → IsMappedRegion pt va_start (va_start + size) k
    → map_region pt va_start pa_start size kind k ≡ some (true, k)
unfolding map_region
map_region-mapped pt va pa size kind k fits va_al size_al pa_al all =
    let e : (va + size) % 2 ^ 64 ≡ va + size = omega arith in
    let al : (va + size) % 4096 ≡ 0 = omega arith in
    rw (e, eq→== (va % 4096) 0 va_al, eq→== ((va + size) % 4096) 0 al, eq→== (pa % 4096) 0 pa_al)
      (map_loop-mapped ((va + size) / 4096 + 1) pt va (va + size) va pa kind k (omega arith)
        (omega arith) va_al all)
