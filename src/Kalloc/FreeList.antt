-- ===== src/Kalloc/FreeList.antt =====
-- kernel/kalloc.c's free list as a list of frames, and what `kalloc` and `kfree` do to it.
use skinny_arm.Base.{
  ℕ, zero, suc, ◌+◌, ◌^◌, ◌≤◌, ◌<◌, ◌≡◌, ◌≢◌, ◌⊎◌, inl, refl, sym, ◌∙◌, subst, ne→==, none, some,
  List, [], ◌∷◌, All, arith, if◌then◌else◌, true, false,
}
use skinny_arm.Memory.{
  Mem, store8, load64, within, store64-outside, store64-zero, load64_ext, load64-store64_self,
  load64-store64_ne,
}
use skinny_arm.Kalloc.{Kernel, set_next, next, clear_data, clear_page, kfree, kfree_at, kalloc}

clear_data_lem :
    (n i page : ℕ) (m : Mem) (x : ℕ)
    → clear_data n i page m x ≡ (if within (page + 8 + i) n x then 0 else m x)
unfolding clear_data store8
clear_data_lem zero i page m x = ground arith
clear_data_lem (suc n) i page m x =
    ground (arith, clear_data_lem n (i + 1) page (store8 m (page + 8 + i) 0) x)

-- `clear_page` zeroes the page's 4096 bytes and no other.
pub clear_page_lem :
    (page : ℕ) (m : Mem) (x : ℕ) → clear_page page m x ≡ (if within page 4096 x then 0 else m x)
unfolding clear_page
clear_page_lem page m x = ground (
  arith,
  clear_data_lem 4088 0 page (set_next m page 0) x,
  store64-outside m page 0 x,
  store64-zero m page x,
)

-- From `p` the `next` words lead through the frames `fs` to NULL.
abbrev pub Chain : Mem → ℕ → List ℕ → Type 0
Chain m p [] = p ≡ 0
Chain m p (f ∷ fs) = (p ≡ f) × (f ≢ 0) × Chain m (next m f) fs

-- Two frames share no byte.
abbrev pub Apart : ℕ → ℕ → Type 0
Apart f g = (f + 4096 ≤ g) ⊎ (g + 4096 ≤ f)

abbrev pub AllApart : List ℕ → Type 0
AllApart [] = Unit
AllApart (f ∷ fs) = All (Apart f) fs × AllApart fs

-- The free list holds the frames `fs`, in order: distinct frames, in a 64-bit address space.
pub record IsFree (k : Kernel) (fs : List ℕ) : Type 0 where
  pub chain : Chain k.mem k.page_frame_linked_list fs
  pub apart : AllApart fs
  pub small : All (λ f. f < 2 ^ 64) fs

-- Memory `m` at all addresses but those of frame `f`.
abbrev pub SameOutside : ℕ → Mem → Mem → Type 0
SameOutside f m n = (x : ℕ) → within f 4096 x ≡ false → n x ≡ m x

-- A chain survives a change of a frame that is apart from its own.
pub Chain-frame :
    (m n : Mem) (f p : ℕ) (fs : List ℕ)
    → Chain m p fs
    → All (Apart f) fs
    → SameOutside f m n
    → Chain n p fs
Chain-frame m n f p [] c apart same = c
Chain-frame m n f p (g ∷ fs) c apart same = (
  c.0,
  c.1,
  subst (λ q. Chain n q fs) (sym kept) (Chain-frame m n f (next m g) fs c.2 apart.1 same),
)
  where
    kept : next n g ≡ next m g
    kept = load64_ext n m g λ x lo hi. same x (ground arith)

-- What `kalloc` leaves: frame `f` off the list and zeroed, and all else untouched.
pub record IsTaken (k : Kernel) (f : ℕ) (fs : List ℕ) (k' : Kernel) : Type 0 where
  pub free : IsFree k' fs
  pub head : k'.page_frame_linked_list ≡ next k.mem f
  pub zeroed : (x : ℕ) → within f 4096 x ≡ true → k'.mem x ≡ 0
  pub same : SameOutside f k.mem k'.mem

-- While the list holds a frame, `kalloc` succeeds: it hands out the first frame of the list, zeroes
-- it, keeps the other frames on the list in order, and writes nowhere else.
pub kalloc-cons :
    (k : Kernel) (f : ℕ) (fs : List ℕ)
    → IsFree k (f ∷ fs)
    → (k' : Kernel) × (kalloc k ≡ some (f, k')) × IsTaken k f fs k'
unfolding kalloc
kalloc-cons k f fs free = (
  record { mem = clear_page f k.mem; page_frame_linked_list = next k.mem f },
  taken,
  record {
    free = record {
      chain =
          Chain-frame k.mem (clear_page f k.mem) f (next k.mem f) fs free.chain.2 free.apart.0 kept;
      apart = free.apart.1;
      small = free.small.1;
    };
    head = refl;
    zeroed = λ x h. ground (arith, clear_page_lem f k.mem x);
    same = kept;
  },
)
  where
    kept : SameOutside f k.mem (clear_page f k.mem)
    kept x h = ground (arith, clear_page_lem f k.mem x)

    taken :
        kalloc k
        ≡ some (f, record { mem = clear_page f k.mem; page_frame_linked_list = next k.mem f })
    taken = rw (free.chain.0, ne→== f 0 free.chain.1)

-- With no frame on the list `kalloc` returns -1.
pub kalloc-nil : (k : Kernel) → IsFree k [] → kalloc k ≡ none
unfolding kalloc
kalloc-nil k free = ground (arith, free.chain)

head-lt : (k : Kernel) (fs : List ℕ) → IsFree k fs → k.page_frame_linked_list < 2 ^ 64
head-lt k [] free = omega (arith, free.chain)
head-lt k (f ∷ fs) free = omega (arith, free.chain.0, free.small.0)

next-kfree :
    (k : Kernel) (f : ℕ) (fs : List ℕ)
    → IsFree k fs
    → next (kfree f k).mem f ≡ k.page_frame_linked_list
unfolding kfree
next-kfree k f fs free =
    load64-store64_self (clear_page f k.mem) f k.page_frame_linked_list (head-lt k fs free)

-- `kfree` of a frame that is not NULL, below `2 ^ 64` and apart from those on the list puts it in
-- front of them; the frame's bytes behind its first word are 0 then, and all outside the frame is
-- untouched.
pub kfree-cons :
    (k : Kernel) (f : ℕ) (fs : List ℕ)
    → IsFree k fs
    → f ≢ 0
    → f < 2 ^ 64
    → All (Apart f) fs
    → IsFree (kfree f k) (f ∷ fs)
      × ((x : ℕ) → within (f + 8) 4088 x ≡ true → (kfree f k).mem x ≡ 0)
      × SameOutside f k.mem (kfree f k).mem
unfolding kfree
kfree-cons k f fs free ne small apart = (
  record {
    chain =
        (refl, ne, subst (λ q. Chain (kfree f k).mem q fs) (sym (next-kfree k f fs free)) moved);
    apart = (apart, free.apart);
    small = (small, free.small);
  },
  λ x h. ground (
    arith,
    clear_page_lem f k.mem x,
    store64-outside (clear_page f k.mem) f k.page_frame_linked_list x,
  ),
  kept,
)
  where
    kept : SameOutside f k.mem (kfree f k).mem
    kept x h = ground (
      arith,
      clear_page_lem f k.mem x,
      store64-outside (clear_page f k.mem) f k.page_frame_linked_list x,
    )

    moved : Chain (kfree f k).mem k.page_frame_linked_list fs
    moved = Chain-frame k.mem (kfree f k).mem f k.page_frame_linked_list fs free.chain apart kept

-- A frame that is not NULL, below `2 ^ 64` and apart from those on the list: once freed, it is the
-- next one that `kalloc` hands out, zeroed, and the rest of the allocator is as it was before: the
-- list's head, its frames, and all memory outside the frame.
pub kalloc-kfree :
    (k : Kernel) (f : ℕ) (fs : List ℕ)
    → IsFree k fs
    → f ≢ 0
    → f < 2 ^ 64
    → All (Apart f) fs
    → (k' : Kernel) × (kalloc (kfree f k) ≡ some (f, k'))
      × (k'.page_frame_linked_list ≡ k.page_frame_linked_list)
      × IsFree k' fs
      × ((x : ℕ) → within f 4096 x ≡ true → k'.mem x ≡ 0)
      × SameOutside f k.mem k'.mem
kalloc-kfree k f fs free ne small apart =
    let (freed, zeroed, same) = kfree-cons k f fs free ne small apart in
    let (k', got, is) = kalloc-cons (kfree f k) f fs freed in
    (k', got, is.head ∙ next-kfree k f fs free, is.free, is.zeroed, λ x h. is.same x h ∙ same x h)

-- `kfree` of a pointer into memory frees the frame that the word there points to, when that frame
-- does not hold the word itself.
pub kfree_at-eq-kfree :
    (pp : ℕ) (k : Kernel)
    → k.page_frame_linked_list < 2 ^ 64
    → (load64 k.mem pp + 4096 ≤ pp) ⊎ (pp + 8 ≤ load64 k.mem pp)
    → kfree_at pp k ≡ kfree (load64 k.mem pp) k
unfolding kfree_at kfree
kfree_at-eq-kfree pp k small out = rw (again, still)
  where
    page : ℕ
    page = load64 k.mem pp

    again : load64 (clear_page page k.mem) pp ≡ page
    again = load64_ext _ _ pp λ x lo hi. ground (arith, clear_page_lem page k.mem x)

    still : load64 (set_next (clear_page page k.mem) page k.page_frame_linked_list) pp ≡ page
    still = load64-store64_ne (clear_page page k.mem) page pp _ (ground arith) ∙ again

-- A page whose first word is 0, as a fresh page of `kalloc` has it, and which starts at or above
-- 4096, with a list whose head is below `2 ^ 64`: to pass the page's address itself to `kfree`
-- empties the free list, so that the next `kalloc` returns -1 however many frames were free.
pub kalloc-kfree_at_zeroed :
    (pp : ℕ) (k : Kernel)
    → k.page_frame_linked_list < 2 ^ 64
    → 4096 ≤ pp
    → load64 k.mem pp ≡ 0
    → kalloc (kfree_at pp k) ≡ none
unfolding kalloc kfree
kalloc-kfree_at_zeroed pp k small above zero_word =
    rw (kfree_at-eq-kfree pp k small (inl (omega arith)), zero_word)
