-- ===== src/Kalloc/Pages.antt =====
-- The pages that a client of kernel/kalloc.c owns, in memory.
use skinny_arm.Base.{
  ℕ, zero, suc, ◌+◌, ◌^◌, ◌<◌, ◌≡◌, ◌≢◌, inl, inr, refl, ap, ◌∙◌, subst, none, some, List, [], ◌∷◌,
  All, All-get, All-remove, All-set, get_elem?, set, remove, arith,
}
use skinny_arm.Memory.{Mem, store8}
use skinny_arm.Kalloc.FreeList.{Apart, SameOutside}
use skinny_arm.Kalloc.Pool.{Page, put_byte}

-- `g` is a page in memory, apart from the frames `fs`.
pub record IsPage (m : Mem) (fs : List ℕ) (g : Page) : Type 0 where
  pub real : g.frame ≢ 0
  pub small : g.frame < 2 ^ 64
  pub apart : All (Apart g.frame) fs
  pub bytes : (x : ℕ) → x < 4096 → m (g.frame + x) ≡ g.byte x

abbrev pub ApartFrom : ℕ → Page → Type 0
ApartFrom f g = Apart f g.frame

-- Pages that share nothing with each other and with the frames `fs`.
abbrev pub ArePages : Mem → List ℕ → List Page → Type 0
ArePages m fs [] = Unit
ArePages m fs (g ∷ gs) = IsPage m fs g × All (ApartFrom g.frame) gs × ArePages m fs gs

abbrev pub frames_of : List Page → List ℕ
frames_of [] = []
frames_of (g ∷ gs) = g.frame ∷ frames_of gs

pub Apart-sym : (f g : ℕ) → Apart f g → Apart g f
Apart-sym f g (inl h) = inr h
Apart-sym f g (inr h) = inl h

-- Pages stand a change of memory in a frame that is apart from them, and another list of free frames.
pub ArePages-frame :
    (m n : Mem) (f : ℕ) (fs fs' : List ℕ) (gs : List Page)
    → ArePages m fs gs
    → All (ApartFrom f) gs
    → SameOutside f m n
    → ((g : Page) → ApartFrom f g → IsPage m fs g → All (Apart g.frame) fs')
    → ArePages n fs' gs
ArePages-frame m n f fs fs' [] is off same more = tt
ArePages-frame m n f fs fs' (g ∷ gs) is off same more = (
  record {
    real = is.0.real;
    small = is.0.small;
    apart = more g off.0 is.0;
    bytes = λ x h. same (g.frame + x) (ground (arith, off.0)) ∙ is.0.bytes x h;
  },
  is.1,
  ArePages-frame m n f fs fs' gs is.2 off.1 same more,
)

pub ArePages-get :
    (m : Mem) (fs : List ℕ) (gs : List Page) (i : ℕ) (g : Page)
    → get_elem? gs i ≡ some g
    → ArePages m fs gs
    → IsPage m fs g
ArePages-get m fs [] i g e is = absurd (cc e)
ArePages-get m fs (h ∷ gs) zero g e is = subst (IsPage m fs) (cc e) is.0
ArePages-get m fs (h ∷ gs) (suc i) g e is = ArePages-get m fs gs i g e is.2

pub ArePages-remove :
    (m : Mem) (fs : List ℕ) (gs : List Page) (i : ℕ) (g : Page)
    → get_elem? gs i ≡ some g
    → ArePages m fs gs
    → All (ApartFrom g.frame) (remove gs i) × ArePages m fs (remove gs i)
ArePages-remove m fs [] i g e is = absurd (cc e)
ArePages-remove m fs (h ∷ gs) zero g e is =
    let same : h ≡ g = cc e in (subst (λ (q : Page). All (ApartFrom q.frame) gs) same is.1, is.2)
ArePages-remove m fs (h ∷ gs) (suc i) g e is =
    let (off, rest) = ArePages-remove m fs gs i g e is.2 in
    (
      (Apart-sym h.frame g.frame (All-get (ApartFrom h.frame) gs i g e is.1), off),
      (is.0, All-remove (ApartFrom h.frame) gs i is.1, rest),
    )

pub store8-SameOutside :
    (m : Mem) (f offset v : ℕ) → offset < 4096 → SameOutside f m (store8 m (f + offset) v)
unfolding store8
store8-SameOutside m f offset v lt x out = ground arith

-- A write into a page changes that page only.
pub ArePages-write :
    (m : Mem) (fs : List ℕ) (gs : List Page) (i offset v : ℕ) (g : Page)
    → offset < 4096
    → get_elem? gs i ≡ some g
    → ArePages m fs gs
    → ArePages (store8 m (g.frame + offset) v) fs (set gs i (put_byte g offset v))
unfolding store8
ArePages-write m fs [] i offset v g lt e is = absurd (cc e)
ArePages-write m fs (h ∷ gs) zero offset v g lt e is =
    let is' : IsPage m fs g × All (ApartFrom g.frame) gs × ArePages m fs gs =
      subst (λ (q : Page). IsPage m fs q × All (ApartFrom q.frame) gs × ArePages m fs gs) (cc e)
        is in
    (
      record {
        real = is'.0.real;
        small = is'.0.small;
        apart = is'.0.apart;
        bytes = λ x lo. ground (arith, is'.0.bytes x lo);
      },
      is'.1,
      ArePages-frame m (store8 m (g.frame + offset) v) g.frame fs fs gs is'.2 is'.1
          (store8-SameOutside m g.frame offset v lt) (λ q off page. page.apart),
    )
ArePages-write m fs (h ∷ gs) (suc i) offset v g lt e is = (
  let off = All-get (ApartFrom h.frame) gs i g e is.1 in
      record {
        real = is.0.real;
        small = is.0.small;
        apart = is.0.apart;
        bytes = λ x lo.
            store8-SameOutside m g.frame offset v lt (h.frame + x) (ground (arith, off))
            ∙ is.0.bytes x lo;
      },
  All-set (ApartFrom h.frame) gs i (put_byte g offset v) (All-get (ApartFrom h.frame) gs i g e is.1)
      is.1,
  ArePages-write m fs gs i offset v g lt e is.2,
)

pub get_elem?-frames_of :
    (gs : List Page) (i : ℕ)
    → get_elem? (frames_of gs) i ≡ elim (get_elem? gs i) [ none ↦ none | some g ↦ some g.frame ]
get_elem?-frames_of [] i = refl
get_elem?-frames_of (g ∷ gs) zero = refl
get_elem?-frames_of (g ∷ gs) (suc i) = get_elem?-frames_of gs i

pub remove-frames_of : (gs : List Page) (i : ℕ) → remove (frames_of gs) i ≡ frames_of (remove gs i)
remove-frames_of [] i = refl
remove-frames_of (g ∷ gs) zero = refl
remove-frames_of (g ∷ gs) (suc i) = ap (λ fs. g.frame ∷ fs) (remove-frames_of gs i)

pub set-frames_of :
    (gs : List Page) (i : ℕ) (g : Page) (offset v : ℕ)
    → get_elem? gs i ≡ some g
    → frames_of gs ≡ frames_of (set gs i (put_byte g offset v))
set-frames_of [] i g offset v e = refl
set-frames_of (h ∷ gs) zero g offset v e =
    let same : h ≡ g = cc e in ap (λ (q : Page). q.frame ∷ frames_of gs) same
set-frames_of (h ∷ gs) (suc i) g offset v e =
    ap (λ fs. h.frame ∷ fs) (set-frames_of gs i g offset v e)

-- Owned pages are apart from each free frame.
pub ready-ArePages-ApartFrom :
    (m : Mem) (f : ℕ) (fs : List ℕ) (gs : List Page) → ArePages m (f ∷ fs) gs → All (ApartFrom f) gs
ready-ArePages-ApartFrom m f fs [] is = tt
ready-ArePages-ApartFrom m f fs (g ∷ gs) is =
    (Apart-sym g.frame f is.0.apart.0, ready-ArePages-ApartFrom m f fs gs is.2)
