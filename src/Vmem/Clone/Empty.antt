-- ===== src/Vmem/Clone/Empty.antt =====
-- kernel/vmem.c's `clone_pagetable` of a table without entries.
use skinny_arm.Base.{
  ℕ, zero, suc, ◌+◌, ◌*◌, ◌^◌, ◌≤◌, ◌<◌, ◌≡◌, ◌⊎◌, inr, refl, ◌∙◌, true, false, arith,
}
use skinny_arm.Memory.{
  load64-store64_ne, Mem, load64, within, load64_ext, load64-of_zero, store64-outside,
  load64-store64_self,
}
use skinny_arm.Str.{strcpy, strcpy-outside}
use skinny_arm.Kalloc.{page_size, Kernel}
use skinny_arm.Pte.{get_page_set, get_bit, get_physical_addr}
use skinny_arm.Vmem.Clone.{Locals, pentry_cnt, word, set_word, clone_entries, clone_pagetable}

-- Memory `m` outside the local arrays.
abbrev pub SameBeside : Locals → Mem → Mem → Type 0
SameBeside v m n = (x : ℕ) → within v.froms 40 x ≡ false → within v.tos 40 x ≡ false → n x ≡ m x

-- A table of zeros, apart from the local arrays, which are apart from one another.
pub record IsEmpty (v : Locals) (from : ℕ) (k : Kernel) : Type 0 where
  pub zeros : (x : ℕ) → within from 4096 x ≡ true → k.mem x ≡ 0
  pub beside_froms : (from + 4096 ≤ v.froms) ⊎ (v.froms + 40 ≤ from)
  pub beside_tos : (from + 4096 ≤ v.tos) ⊎ (v.tos + 40 ≤ from)
  pub apart : (v.froms + 40 ≤ v.tos) ⊎ (v.tos + 40 ≤ v.froms)
  pub from_fits : from < 2 ^ 64
  pub tos_fits : v.tos < 2 ^ 64

IsEmpty-SameBeside :
    (v : Locals) (from : ℕ) (k k' : Kernel)
    → IsEmpty v from k
    → SameBeside v k.mem k'.mem
    → IsEmpty v from k'
IsEmpty-SameBeside v from k k' is same = record {
  zeros = λ x h.
      same x (ground (arith, h, is.beside_froms)) (ground (arith, h, is.beside_tos)) ∙ is.zeros x h;
  beside_froms = is.beside_froms;
  beside_tos = is.beside_tos;
  apart = is.apart;
  from_fits = is.from_fits;
  tos_fits = is.tos_fits;
}

entry-unset :
    (v : Locals) (from i : ℕ) (k : Kernel)
    → IsEmpty v from k
    → i < 512
    → get_page_set (word from i k) ≡ 0
unfolding get_bit
entry-unset v from i k is lt =
    let e : load64 k.mem (from + 8 * i) ≡ 0 =
      load64-of_zero k.mem (from + 8 * i) (λ x lo hi. is.zeros x (ground arith)) in
    rw e refl

set_word-SameBeside :
    (v : Locals) (i w : ℕ) (k : Kernel) → i < 5 → SameBeside v k.mem (set_word v.froms i w k).mem
set_word-SameBeside v i w k lt x off off' =
    store64-outside k.mem (v.froms + 8 * i) w x (ground (arith, off))

-- `froms[1]` is set, before an entry is looked at.
abbrev next_from : Locals → (i : ℕ) → Kernel → Kernel
next_from v i k = set_word v.froms 1 (get_physical_addr (word (word v.froms 0 k) i k)) k

next_from-kept :
    (v : Locals) (i : ℕ) (k : Kernel) → word v.froms 0 (next_from v i k) ≡ word v.froms 0 k
next_from-kept v i k = load64-store64_ne k.mem (v.froms + 8) (v.froms + 0) _ (inr (omega arith))

clone_entries-skip :
    (v : Locals) (to from n i : ℕ) (k : Kernel)
    → word v.froms 0 (next_from v i k) ≡ from
    → get_page_set (word from i (next_from v i k)) ≡ 0
    → clone_entries v to 3 (suc n) i k ≡ clone_entries v to 3 n (i + 1) (next_from v i k)
unfolding clone_entries
clone_entries-skip v to from n i k at unset = rw (at, unset, clone_entries) refl

-- The loop over the root table.
clone_entries-unset :
    (v : Locals) (to from n i : ℕ) (k : Kernel)
    → i + n ≤ 512
    → IsEmpty v from k
    → word v.froms 0 k ≡ from
    → (k' : Kernel) × (clone_entries v to 3 n i k ≡ (true, k'))
      × SameBeside v k.mem k'.mem
      × (k'.page_frame_linked_list ≡ k.page_frame_linked_list)
unfolding clone_entries
clone_entries-unset v to from zero i k fits is at = (k, refl, λ x off off'. refl, refl)
clone_entries-unset v to from (suc n) i k fits is at =
    let k1 = next_from v i k in
    let same : SameBeside v k.mem k1.mem = set_word-SameBeside v 1 _ k (omega arith) in
    let is1 = IsEmpty-SameBeside v from k k1 is same in
    let at1 = next_from-kept v i k ∙ at in
    let (k', run, same', list) = clone_entries-unset v to from n (i + 1) k1 (omega arith) is1 at1 in
    (
      k',
      clone_entries-skip v to from n i k at1 (entry-unset v from i k1 is1 (omega arith)) ∙ run,
      λ x off off'. same' x off off' ∙ same x off off',
      list,
    )

-- `froms[0]` and `tos[0]` are set.
abbrev start : Locals → (from : ℕ) → Kernel → Kernel
start v from k = set_word v.tos 0 v.tos (set_word v.froms 0 from k)

start-words :
    (v : Locals) (from : ℕ) (k : Kernel)
    → IsEmpty v from k
    → (word v.froms 0 (start v from k) ≡ from) × (word v.tos 0 (start v from k) ≡ v.tos)
start-words v from k is = (
  load64-store64_ne _ (v.tos + 0) (v.froms + 0) v.tos (omega (arith, is.apart))
      ∙ load64-store64_self k.mem (v.froms + 0) from is.from_fits,
  load64-store64_self _ (v.tos + 0) v.tos is.tos_fits,
)

-- The byte that `strcpy` copies goes to `tos` itself.
abbrev cloned : Locals → (from : ℕ) → Kernel → Kernel
cloned v from k = let k1 = start v from k in record k1 { mem = strcpy from v.tos page_size k1.mem }

cloned-SameBeside : (v : Locals) (from : ℕ) (k : Kernel) → SameBeside v k.mem (cloned v from k).mem
cloned-SameBeside v from k x off off' =
    strcpy-outside from v.tos page_size (start v from k).mem x (ground (arith, off'))
    ∙ store64-outside (set_word v.froms 0 from k).mem (v.tos + 0) v.tos x (ground (arith, off'))
    ∙ set_word-SameBeside v 0 from k (omega arith) x off off'

cloned-word :
    (v : Locals) (from : ℕ) (k : Kernel)
    → IsEmpty v from k
    → word v.froms 0 (cloned v from k) ≡ from
cloned-word v from k is =
    load64_ext _ (start v from k).mem (v.froms + 0) (λ x lo hi.
      strcpy-outside from v.tos page_size (start v from k).mem x
        (λ same. omega (arith, is.apart, same, lo, hi)))
    ∙ (start-words v from k is).0

clone_pagetable-start :
    (v : Locals) (from to : ℕ) (k : Kernel)
    → IsEmpty v from k
    → clone_pagetable v to from k ≡ clone_entries v to 3 pentry_cnt 0 (cloned v from k)
unfolding clone_pagetable
clone_pagetable-start v from to k is = let (at, at') = start-words v from k is in rw (at, at') refl

pentry_cnt-le : pentry_cnt ≤ 512
unfolding pentry_cnt
pentry_cnt-le = omega arith

-- Of a table without entries that is apart from the local arrays, `clone_pagetable` returns 0 and writes
-- nothing but its local arrays, nor does it change the free list: a target table apart from the arrays keeps what it
-- holds.
pub clone_pagetable-of_zero :
    (v : Locals) (from to : ℕ) (k : Kernel)
    → IsEmpty v from k
    → (k' : Kernel) × (clone_pagetable v to from k ≡ (true, k'))
      × SameBeside v k.mem k'.mem
      × (k'.page_frame_linked_list ≡ k.page_frame_linked_list)
clone_pagetable-of_zero v from to k is =
    let k1 = cloned v from k in
    let same = cloned-SameBeside v from k in
    let (k', run, same', list) =
      clone_entries-unset v to from pentry_cnt 0 k1 (omega (arith, pentry_cnt-le))
        (IsEmpty-SameBeside v from k k1 is same) (cloned-word v from k is) in
    (
      k',
      clone_pagetable-start v from to k is ∙ run,
      λ x off off'. same' x off off' ∙ same x off off',
      list,
    )
