-- ===== src/Vmem/Walk.antt =====
-- The rounds of kernel/vmem.c's `get_physical_page`, which fill in a path of the page table.
use skinny_arm.Base.{
  ℕ, zero, suc, ◌+◌, ◌≡◌, ap, ◌∙◌, some, List, ◌∷◌, All, arith, true, false, ne→==,
}
use skinny_arm.Memory.{Mem, store64-outside, load64-store64_self, within}
use skinny_arm.Kalloc.{Kernel}
use skinny_arm.Kalloc.FreeList.{Apart, Chain-frame, IsFree, IsTaken}
use skinny_arm.Pte.{get_physical_addr}
use skinny_arm.Vmem.{slot, entry_of, descend, write_entry, follow}
use skinny_arm.Vmem.Leads.{LeadsTo}
use skinny_arm.Vmem.Translate.{
  translate, IsPresent, OnPath, IsTree, slot_bounds, not-IsPresent_of_zero, entry_of_ext,
}

-- What a successful walk leaves: the address translates to the frame that was returned, a page that
-- is no free frame and no table of the path is untouched, and the rest of the free list is intact.
pub record IsMapped (n i : ℕ) (m : Mem) (pt va : ℕ) (fs : List ℕ) (p : ℕ) (k' : Kernel)
    : Type 0 where
  pub found : translate n i k'.mem pt va ≡ some p
  pub kept :
      (v : ℕ)
      → All (Apart v) fs
      → OnPath (Apart v) n i m pt va
      → (x : ℕ) → within v 4096 x ≡ true
      → k'.mem x ≡ m x
  pub rest : List ℕ
  pub free : IsFree k' rest

module _ (pt va i : ℕ) (k : Kernel) where
  pub follow-written :
      (e p : ℕ)
      → LeadsTo e p
      → (entry_of (write_entry pt va i e k).mem pt va i ≡ e)
        × (follow pt va i (write_entry pt va i e k) ≡ descend p (write_entry pt va i e k))
  unfolding follow
  follow-written e p leads =
      let back = load64-store64_self k.mem (slot pt va i) e leads.fits in
      (back, rw (back, leads.address))

  pub write_entry-same :
      (e x : ℕ) → within pt 4096 x ≡ false → (write_entry pt va i e k).mem x ≡ k.mem x
  write_entry-same e x out =
      let (lo, hi) = slot_bounds pt va i in store64-outside k.mem (slot pt va i) e x (ground arith)

  -- An entry written into a table apart from the free frames leaves them as they are.
  pub write_entry-IsFree :
      (e : ℕ) (fs : List ℕ) → IsFree k fs → All (Apart pt) fs → IsFree (write_entry pt va i e k) fs
  write_entry-IsFree e fs free out = record {
    chain =
        Chain-frame k.mem (write_entry pt va i e k).mem pt k.page_frame_linked_list fs free.chain
          out (write_entry-same e);
    apart = free.apart;
    small = free.small;
  }

module _ (n i pt va : ℕ) (m : Mem) where
  pub translate-present :
      IsPresent m pt va i
      → translate (suc n) i m pt va
        ≡ translate n (i + 1) m (get_physical_addr (entry_of m pt va i)) va
  unfolding translate
  translate-present present = rw (ne→== _ 0 present)

  translate-LeadsTo :
      (e p : ℕ)
      → entry_of m pt va i ≡ e
      → LeadsTo e p
      → translate (suc n) i m pt va ≡ translate n (i + 1) m p va
  unfolding translate
  translate-LeadsTo e p is leads = rw (is, leads.present, leads.address)

-- A table that is all zero ends the path.
pub OnPath-of_zero :
    (P : ℕ → Type 0) (n i : ℕ) (m : Mem) (f va : ℕ)
    → ((x : ℕ) → within f 4096 x ≡ true → m x ≡ 0)
    → P f
    → OnPath P n i m f va
OnPath-of_zero P zero i m f va zeros h = tt
OnPath-of_zero P (suc n) i m f va zeros h =
    (h, λ present. absurd (present (not-IsPresent_of_zero m f va i zeros)))

pub IsTree-of_zero :
    (n i : ℕ) (m : Mem) (f va : ℕ) (fs : List ℕ)
    → ((x : ℕ) → within f 4096 x ≡ true → m x ≡ 0)
    → All (Apart f) fs
    → IsTree n i m f va fs
IsTree-of_zero zero i m f va fs zeros h = tt
IsTree-of_zero (suc n) i m f va fs zeros h =
    (h, λ present. absurd (present (not-IsPresent_of_zero m f va i zeros)))

module _ (n i pt va p : ℕ) (k' : Kernel) where
  -- The entry was there: the walk below kept it.
  pub IsMapped-present :
      (m : Mem) (fs : List ℕ)
      → IsPresent m pt va i
      → IsTree (suc n) i m pt va fs
      → IsMapped n (i + 1) m (get_physical_addr (entry_of m pt va i)) va fs p k'
      → IsMapped (suc n) i m pt va fs p k'
  IsMapped-present m fs present tree below = record {
    found =
        translate-present n i pt va k'.mem (rw same present)
        ∙ ap (λ e. translate n (i + 1) k'.mem (get_physical_addr e) va) same
        ∙ below.found;
    kept = λ v out path. below.kept v out (path.1 present);
    rest = below.rest;
    free = below.free;
  }
    where
      same : entry_of k'.mem pt va i ≡ entry_of m pt va i
      same = entry_of_ext k'.mem m pt va i (below.kept pt tree.0 (tree.1 present).0)

  -- The entry was missing: a frame was taken, and linked in.
  module _ (k k1 : Kernel) (f e : ℕ) (fs : List ℕ) (taken : IsTaken k f fs k1) (leads : LeadsTo e f)
      (apart : All (Apart pt) (f ∷ fs)) (frames : All (Apart f) fs) where
    abbrev pub linked : Kernel
    linked = write_entry pt va i e k1

    pub linked-zero : (x : ℕ) → within f 4096 x ≡ true → linked.mem x ≡ 0
    linked-zero x h = write_entry-same pt va i k1 e x (ground (arith, apart.0)) ∙ taken.zeroed x h

    pub linked-IsFree : IsFree linked fs
    linked-IsFree = write_entry-IsFree pt va i k1 e fs taken.free apart.1

    pub linked-IsTree : IsTree n (i + 1) linked.mem f va fs
    linked-IsTree = IsTree-of_zero n (i + 1) linked.mem f va fs linked-zero frames

    pub IsMapped-allocated :
        IsMapped n (i + 1) linked.mem f va fs p k' → IsMapped (suc n) i k.mem pt va (f ∷ fs) p k'
    IsMapped-allocated below = record {
      found =
          translate-LeadsTo n i pt va k'.mem e f (same ∙ (follow-written pt va i k1 e f leads).0)
            leads
          ∙ below.found;
      kept = λ v out path x h.
          below.kept v out.1 (OnPath-of_zero (Apart v) n (i + 1) linked.mem f va linked-zero out.0)
            x h
          ∙ write_entry-same pt va i k1 e x (ground (arith, path.0))
          ∙ taken.same x (ground (arith, out.0));
      rest = below.rest;
      free = below.free;
    }
      where
        same : entry_of k'.mem pt va i ≡ entry_of linked.mem pt va i
        same = entry_of_ext k'.mem linked.mem pt va i (
            below.kept pt apart.1
              (OnPath-of_zero (Apart pt) n (i + 1) linked.mem f va linked-zero apart.0))

-- The last level, with a page to map: only the slot is written.
pub IsMapped-leaf :
    (i pt va pa e : ℕ) (k : Kernel) (fs : List ℕ)
    → IsFree k fs
    → All (Apart pt) fs
    → LeadsTo e pa
    → IsMapped 1 i k.mem pt va fs pa (write_entry pt va i e k)
unfolding translate
IsMapped-leaf i pt va pa e k fs free apart leads = record {
  found =
      translate-LeadsTo 0 i pt va (write_entry pt va i e k).mem e pa
        (follow-written pt va i k e pa leads).0 leads;
  kept = λ v out path x h. write_entry-same pt va i k e x (ground (arith, path.0));
  rest = fs;
  free = write_entry-IsFree pt va i k e fs free apart;
}
