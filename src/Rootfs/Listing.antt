-- ===== src/Rootfs/Listing.antt =====
-- kernel/rootfs.c's `ls`.
use skinny_arm.Base.{
  ℕ, zero, suc, ◌+◌, ◌<◌, ◌≡◌, ◌≢◌, refl, sym, ap, ◌∙◌, true, false, some, List, [], ◌∷◌, length,
  arith, ne→==, eq→==,
}
use skinny_arm.Memory.{Mem, load64}
use skinny_arm.Rootfs.{search_file, list_names, ls}

-- From `file` the `next_file` words lead through `fs` to NULL.
abbrev pub Siblings : Mem → (file : ℕ) → List ℕ → Type 0
Siblings m file [] = file ≡ 0
Siblings m file (f ∷ fs) = (file ≡ f) × (f ≢ 0) × Siblings m (load64 m (f + 32)) fs

list_names-Siblings :
    (fs : List ℕ) (fuel file : ℕ) (m : Mem)
    → Siblings m file fs
    → length fs < fuel
    → list_names fuel file m ≡ some fs
unfolding list_names
list_names-Siblings fs zero file m is enough = absurd (omega arith)
list_names-Siblings [] (suc fuel) file m is enough = rw (eq→== file 0 is, list_names) refl
list_names-Siblings (f ∷ fs) (suc fuel) file m is enough =
    let rest =
      ap (λ x. list_names fuel (load64 m (x + 32)) m) is.0
      ∙ list_names-Siblings fs fuel (load64 m (f + 32)) m is.2 (omega arith) in
    rw (ne→== file 0 (λ e. is.1 (sym is.0 ∙ e)), rest, list_names) (ap (λ x. some (x ∷ fs)) is.0)

-- `ls` of a file that the search finds, at the start of a chain of siblings that ends, with more
-- fuel than these: it prints their names, the file's own first, and returns 0. If the search finds
-- none it returns -1 and prints nothing.
pub ls-Siblings :
    (fuel filepath files : ℕ) (m : Mem)
    → ((file : ℕ) (fs : List ℕ)
        → search_file fuel filepath files m ≡ some (true, file)
        → Siblings m file fs
        → length fs < fuel
        → ls fuel filepath files m ≡ some (true, fs))
      × ((file : ℕ)
          → search_file fuel filepath files m ≡ some (false, file)
          → ls fuel filepath files m ≡ some (false, []))
unfolding ls
ls-Siblings fuel filepath files m = (
  λ file fs found is enough. rw (found, list_names-Siblings fs fuel file m is enough, ls) refl,
  λ file missing. rw (missing, ls) refl,
)
