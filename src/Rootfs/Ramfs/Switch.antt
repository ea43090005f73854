-- ===== src/Rootfs/Ramfs/Switch.antt =====
-- What the `switch (filetype)` of kernel/rootfs.c's `init_ramfs` writes, and the step behind it that
-- sets the data.
use skinny_arm.Base.{
  ℕ, ◌+◌, ◌%◌, ◌^◌, ◌≤◌, ◌<◌, ◌≡◌, ◌≢◌, ◌⊎◌, refl, ◌∙◌, Bool, true, false, Option, none, some, List,
  [], ◌∷◌, arith, ne→==,
}
use skinny_arm.Memory.{
  Mem, within, load64, store64, store64-outside, load64-store64_self, load64-store64_ne, load64_ext,
}
use skinny_arm.Rootfs.{load32}
use skinny_arm.Rootfs.Header.{Holds}
use skinny_arm.Rootfs.Ramfs.{
  Layout, inode_at, Scan, current_file, store32, enter_directory, set_ino, find_inode,
  enter_regular, place_data,
}
use skinny_arm.Rootfs.Ramfs.Archive.{Holds-ext}
use skinny_arm.Rootfs.Ramfs.Word.{store32-outside, store32-Holds, load32-store32_self}

-- The bytes of `type`: 2 for a file, 1 for a directory.
abbrev pub kind_bytes : Bool → List ℕ
kind_bytes true = 2 ∷ 0 ∷ 0 ∷ 0 ∷ []
kind_bytes false = 1 ∷ 0 ∷ 0 ∷ 0 ∷ []

-- `n` has the bytes of `m` but for the file's own and for those of `inodes`; of `inodes`, it has the
-- words `data` and `data_size` of the first `k`.
pub record Keeps (t : Layout) (file k : ℕ) (m n : Mem) : Type 0 where
  pub outside : (x : ℕ) → within file 48 x ≡ false → within t.inodes 8192 x ≡ false → n x ≡ m x
  pub data_word : (j y : ℕ) → j < k → y < 8 → n (inode_at t j + y) ≡ m (inode_at t j + y)
  pub size_word : (j y : ℕ) → j < k → y < 4 → n (inode_at t j + 24 + y) ≡ m (inode_at t j + 24 + y)

pub Keeps-trans :
    {t : Layout} {file k : ℕ} {m n o : Mem}
    → Keeps t file k m n
    → Keeps t file k n o
    → Keeps t file k m o
Keeps-trans p q = record {
  outside = λ x o1 o2. q.outside x o1 o2 ∙ p.outside x o1 o2;
  data_word = λ j y lj ly. q.data_word j y lj ly ∙ p.data_word j y lj ly;
  size_word = λ j y lj ly. q.size_word j y lj ly ∙ p.size_word j y lj ly;
}

module _ (t : Layout) (file k : ℕ) (apart : (file + 48 ≤ t.inodes) ⊎ (t.inodes + 8192 ≤ file))
    (few : k ≤ 256) where
  -- A write inside the file's own bytes.
  own-Keeps :
      (m n : Mem) (a l : ℕ)
      → file ≤ a
      → a + l ≤ file + 48
      → ((x : ℕ) → within a l x ≡ false → n x ≡ m x)
      → Keeps t file k m n
  own-Keeps m n a l lo hi same = record {
    outside = λ x o1 o2. same x (ground (arith, o1));
    data_word = λ j y lj ly. same (inode_at t j + y) (ground arith);
    size_word = λ j y lj ly. same (inode_at t j + 24 + y) (ground arith);
  }

  -- A write to the numbers of an inode.
  numbers-Keeps :
      (m : Mem) (c d v : ℕ)
      → c < 256
      → 8 ≤ d
      → d + 8 ≤ 24
      → Keeps t file k m (store64 m (inode_at t c + d) v)
  numbers-Keeps m c d v lc lo hi = record {
    outside = λ x o1 o2. store64-outside m (inode_at t c + d) v x (ground (arith, o2));
    data_word =
        λ j y lj ly. store64-outside m (inode_at t c + d) v (inode_at t j + y) (ground arith);
    size_word =
        λ j y lj ly. store64-outside m (inode_at t c + d) v (inode_at t j + 24 + y) (ground arith);
  }

  -- A write to an inode that is not among the first `k`.
  fresh-Keeps :
      (m n : Mem) (c d l : ℕ)
      → k ≤ c
      → c < 256
      → d + l ≤ 32
      → ((x : ℕ) → within (inode_at t c + d) l x ≡ false → n x ≡ m x)
      → Keeps t file k m n
  fresh-Keeps m n c d l new lc hi same = record {
    outside = λ x o1 o2. same x (ground (arith, o2));
    data_word = λ j y lj ly. same (inode_at t j + y) (ground arith);
    size_word = λ j y lj ly. same (inode_at t j + 24 + y) (ground arith);
  }

  pub enter_directory-Keeps : (m : Mem) → Keeps t file k m (enter_directory file m)
  unfolding enter_directory
  enter_directory-Keeps m =
      Keeps-trans
        (Keeps-trans
          (own-Keeps m (store32 m (file + 24) 1) (file + 24) 4 (omega arith) (omega arith)
            (store32-outside m (file + 24) 1))
          (own-Keeps _ (store64 (store32 m (file + 24) 1) (file + 40) 0) (file + 40) 8 (omega arith)
            (omega arith) (store64-outside (store32 m (file + 24) 1) (file + 40) 0)))
        (own-Keeps _ (enter_directory file m) (file + 40) 8 (omega arith) (omega arith)
          (store64-outside (store64 (store32 m (file + 24) 1) (file + 40) 0) (file + 40) 0))

  pub enter_directory-kind :
      (m : Mem) → Holds (enter_directory file m) (file + 24) (kind_bytes false)
  unfolding enter_directory
  enter_directory-kind m =
      Holds-ext (store32 m (file + 24) 1) (enter_directory file m) (file + 24) (kind_bytes false)
        (λ x lo hi.
          store64-outside (store64 (store32 m (file + 24) 1) (file + 40) 0) (file + 40) 0 x
            (ground arith)
          ∙ store64-outside (store32 m (file + 24) 1) (file + 40) 0 x (ground arith))
        (store32-Holds m (file + 24) 1)

  set_ino-Keeps : (ino : Option ℕ) (m : Mem) → Keeps t file k m (set_ino file ino m)
  unfolding set_ino
  set_ino-Keeps none m = own-Keeps m m file 0 (omega arith) (omega arith) (λ x out. refl)
  set_ino-Keeps (some ino) m =
      own-Keeps m (store64 m (file + 40) ino) (file + 40) 8 (omega arith) (omega arith)
        (store64-outside m (file + 40) ino)

  kind-Keeps : (m : Mem) → Keeps t file k m (store32 m (file + 24) 2)
  kind-Keeps m =
      own-Keeps m (store32 m (file + 24) 2) (file + 24) 4 (omega arith) (omega arith)
        (store32-outside m (file + 24) 2)

  -- The memory behind the `switch`, from that of `st`.
  pub record IsSwitched (regular : Bool) (m n : Mem) : Type 0 where
    pub keeps : Keeps t file k m n
    pub kind : Holds n (file + 24) (kind_bytes regular)

  pub directory-IsSwitched : (m : Mem) → IsSwitched false m (enter_directory file m)
  directory-IsSwitched m = record { keeps = enter_directory-Keeps m; kind = enter_directory-kind m }

  module _ (st : Scan) (here : current_file t st ≡ file) where
    pub enter_regular-empty :
        (n : Mem) × (enter_regular 0 t st ≡ record st { mem = n }) × IsSwitched true st.mem n
    unfolding enter_regular
    enter_regular-empty =
        let found =
          find_inode 256 0 (load64 st.mem (st.file_start + 70)) (load64 st.mem (st.file_start + 6))
            t st.mem in
        let m = set_ino file found st.mem in
        (
          store32 m (file + 24) 2,
          rw here refl,
          record {
            keeps = Keeps-trans (set_ino-Keeps found st.mem) (kind-Keeps m);
            kind = store32-Holds m (file + 24) 2;
          },
        )

    pub enter_regular-data :
        (size c : ℕ)
        → size ≢ 0
        → st.current_ino ≡ inode_at t c
        → c < 256
        → (n : Mem) × (enter_regular size t st ≡ record st {
          mem = n;
          iindex = (st.iindex + 1) % 256;
          current_ino = inode_at t ((st.iindex + 1) % 256);
        })
          × IsSwitched true st.mem n
    unfolding enter_regular
    enter_regular-data size c some_data cur lc =
        let device = load64 st.mem (st.file_start + 70) in
        let inode = load64 st.mem (st.file_start + 6) in
        let m = store64 st.mem (inode_at t c + 16) device in
        let m' = store64 m (inode_at t c + 8) inode in
        (
          store32 m' (file + 24) 2,
          rw (ne→== size 0 some_data, here, cur) refl,
          record {
            keeps =
                Keeps-trans
                  (Keeps-trans (numbers-Keeps st.mem c 16 device lc (omega arith) (omega arith))
                    (numbers-Keeps m c 8 inode lc (omega arith) (omega arith)))
                  (kind-Keeps m');
            kind = store32-Holds m' (file + 24) 2;
          },
        )

  -- The memory behind the data, with inode `c` for a file whose data is at `bs`.
  pub record IsPlaced (c bs size : ℕ) (m n : Mem) : Type 0 where
    pub keeps : Keeps t file k m n
    pub head : (x : ℕ) → file ≤ x → x < file + 40 → n x ≡ m x
    pub ino : load64 n (file + 40) ≡ inode_at t c
    pub place : load64 n (inode_at t c) ≡ bs
    pub size_of : load32 n (inode_at t c + 24) ≡ size

  module _ (c bs size : ℕ) (m : Mem) (new : k ≤ c) (lc : c < 256) where
    abbrev placed : Mem
    placed =
        store32 (store64 (store64 m (inode_at t c) bs) (file + 40) (inode_at t c))
          (inode_at t c + 24) size

    placed-IsPlaced :
        t.inodes + 8192 ≤ 2 ^ 64 → bs < 2 ^ 64 → size < 2 ^ 32 → IsPlaced c bs size m placed
    placed-IsPlaced fits small_bs small =
        let m1 = store64 m (inode_at t c) bs in
        let m2 = store64 m1 (file + 40) (inode_at t c) in
        let size-outside = store32-outside m2 (inode_at t c + 24) size in
        record {
          keeps =
              Keeps-trans
                (Keeps-trans
                  (fresh-Keeps m m1 c 0 8 new lc (omega arith)
                    (λ x out. store64-outside m (inode_at t c) bs x (ground (arith, out))))
                  (own-Keeps m1 m2 (file + 40) 8 (omega arith) (omega arith)
                    (store64-outside m1 (file + 40) (inode_at t c))))
                (fresh-Keeps m2 placed c 24 4 new lc (omega arith) size-outside);
          head = λ x lo hi.
              size-outside x (ground arith)
              ∙ store64-outside m1 (file + 40) (inode_at t c) x (ground arith)
              ∙ store64-outside m (inode_at t c) bs x (ground arith);
          ino =
              load64_ext placed m2 (file + 40) (λ x lo hi. size-outside x (ground arith))
              ∙ load64-store64_self m1 (file + 40) (inode_at t c) (omega arith);
          place =
              load64_ext placed m2 (inode_at t c) (λ x lo hi. size-outside x (ground arith))
              ∙ load64-store64_ne m1 (file + 40) (inode_at t c) (inode_at t c) (ground arith)
              ∙ load64-store64_self m (inode_at t c) bs small_bs;
          size_of = load32-store32_self m2 (inode_at t c + 24) size small;
        }

    pub place_data-IsPlaced :
        (st : Scan)
        → current_file t st ≡ file
        → st.current_ino ≡ inode_at t c
        → st.iindex ≡ c
        → st.mem ≡ m
        → t.inodes + 8192 ≤ 2 ^ 64
        → bs < 2 ^ 64
        → size < 2 ^ 32
        → (n : Mem) × (place_data size bs t st
            ≡ record st { mem = n; current_ino = inode_at t c; iindex = (c + 1) % 256 })
          × IsPlaced c bs size m n
    unfolding place_data
    place_data-IsPlaced st here cur index mem fits small_bs small =
        (placed, rw (here, cur, index, mem) refl, placed-IsPlaced fits small_bs small)
