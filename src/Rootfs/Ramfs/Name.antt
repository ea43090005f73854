-- ===== src/Rootfs/Ramfs/Name.antt =====
-- The names in kernel/rootfs.c's `init_ramfs`: a name without `/` is copied to the file, and the name
-- of a parent stays empty.
use skinny_arm.Base.{
  ℕ, zero, suc, ◌+◌, ◌-◌, ◌%◌, ◌≤◌, ◌<◌, ◌≡◌, ◌≢◌, ◌⊎◌, refl, subst, ◌∙◌, false, ◌||◌, some, List,
  [], ◌∷◌, ◌++◌, All, length, arith, eq→==, if◌then◌else◌,
}
use skinny_arm.Memory.{Mem, within, store8, store64, load64, store64-outside, load64-store64_self}
use skinny_arm.Rootfs.Header.{Holds}
use skinny_arm.Rootfs.Ramfs.{Layout, clear_names, parse_name, save_parent}
use skinny_arm.Rootfs.Ramfs.Archive.{Holds-from, Holds-ext}

pub clear_names_lem :
    (n i file parent : ℕ) (m : Mem) (x : ℕ)
    → clear_names n i file parent m x
      ≡ (if within (file + i) n x || within (parent + i) n x then 0 else m x)
unfolding clear_names store8
clear_names_lem zero i file parent m x = ground arith
clear_names_lem (suc n) i file parent m x =
    ground (
      arith,
      clear_names_lem n (i + 1) file parent (store8 (store8 m (file + i) 0) (parent + i) 0) x,
    )

-- What `parse_name` leaves: the name with its NUL from `index` on, and all else as it was.
pub record IsNamed (m : Mem) (file index : ℕ) (cs : List ℕ) (n : Mem) : Type 0 where
  pub name : Holds n (file + index) (cs ++ 0 ∷ [])
  pub same : (x : ℕ) → within (file + index) (16 - index) x ≡ false → n x ≡ m x

pub parse_name-IsNamed :
    (cs : List ℕ) (fuel index bs file parent : ℕ) (m : Mem)
    → length cs < fuel
    → index + length cs < 16
    → file + 16 ≤ bs
    → All (λ c. (c ≢ 0) × (c ≢ 47)) cs
    → All (λ c. c < 256) cs
    → Holds m bs (cs ++ 0 ∷ [])
    → (n : Mem) × (parse_name fuel index bs file parent m ≡ some n) × IsNamed m file index cs n
unfolding parse_name store8
parse_name-IsNamed cs zero index bs file parent m enough fits apart flat bytes h =
    absurd (omega arith)
parse_name-IsNamed [] (suc fuel) index bs file parent m enough fits apart flat bytes h = (
  store8 m (file + index) (m bs),
  ground (arith, h.0),
  record { name = (ground (arith, h.0), tt); same = λ x out. ground arith },
)
parse_name-IsNamed (c ∷ cs) (suc fuel) index bs file parent m enough fits apart flat bytes h =
    let m1 = store8 m (file + index) (m bs) in
    let rest =
      Holds-from bs m m1 (λ x le. ground arith) (bs + 1) (cs ++ 0 ∷ []) (omega arith) h.1 in
    let next_index : (index + 1) % 16 ≡ index + 1 = omega arith in
    let (n, run, is) =
      parse_name-IsNamed cs fuel (index + 1) (bs + 1) file parent m1 (omega arith) (omega arith)
        (omega arith) flat.1 bytes.1 rest in
    (
      n,
      ground (arith, h.0, flat.0.0, flat.0.1, next_index, run),
      record {
        name = (
          is.same (file + index) (ground arith) ∙ ground (arith, h.0, bytes.0),
          subst (λ p. Holds n p (cs ++ 0 ∷ [])) (omega arith) is.name,
        );
        same = λ x out. is.same x (ground arith) ∙ ground arith;
      },
    )

pub length-snoc : (cs : List ℕ) (c : ℕ) → length (cs ++ c ∷ []) ≡ length cs + 1
length-snoc [] c = omega arith
length-snoc (d ∷ cs) c = omega (arith, length-snoc cs c)

-- Behind name and `next_file`, from memory `m`.
pub record IsLinked (m : Mem) (file parent : ℕ) (cs : List ℕ) (n : Mem) : Type 0 where
  pub name : Holds n file (cs ++ 0 ∷ [])
  pub last : load64 n (file + 32) ≡ 0
  pub orphan : n parent ≡ 0
  pub same :
      (x : ℕ)
      → within file 16 x ≡ false
      → within parent 16 x ≡ false
      → within (file + 32) 8 x ≡ false
      → n x ≡ m x

module _ (file parent : ℕ) (cs : List ℕ) (m : Mem)
    (apart : (parent + 16 ≤ file) ⊎ (file + 48 ≤ parent)) (short : length cs < 16) where
  abbrev cleared : Mem
  cleared = clear_names 16 0 file parent m

  pub store-IsLinked :
      (named : Mem)
      → IsNamed cleared file 0 cs named
      → IsLinked m file parent cs (store64 named (file + 32) 0)
  store-IsLinked named is = record {
    name =
        Holds-ext named (store64 named (file + 32) 0) file (cs ++ 0 ∷ [])
          (λ x lo hi. store64-outside named (file + 32) 0 x (ground (arith, length-snoc cs 0)))
          (subst (λ p. Holds named p (cs ++ 0 ∷ [])) (omega arith) is.name);
    last = load64-store64_self named (file + 32) 0 (omega arith);
    orphan =
        store64-outside named (file + 32) 0 parent (ground arith)
        ∙ is.same parent (ground arith)
        ∙ clear_names_lem 16 0 file parent m parent
        ∙ ground arith;
    same = λ x o1 o2 o3.
        store64-outside named (file + 32) 0 x o3
        ∙ is.same x (ground (arith, o1))
        ∙ clear_names_lem 16 0 file parent m x
        ∙ ground (arith, o1, o2);
  }

-- With no parent named, nothing is linked.
pub save_parent-orphan :
    (fuel file : ℕ) (t : Layout) (m : Mem)
    → m t.parent_filename ≡ 0
    → save_parent fuel file t m ≡ some m
unfolding save_parent
save_parent-orphan fuel file t m empty = rw (eq→== (m t.parent_filename) 0 empty, save_parent) refl
