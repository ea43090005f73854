-- ===== src/Rootfs/Ramfs/Later.antt =====
-- What the later rounds of kernel/rootfs.c's `init_ramfs` leave of a file.
use skinny_arm.Base.{
  ℕ, ◌+◌, ◌-◌, ◌*◌, ◌≤◌, ◌<◌, ◌≡◌, refl, ap, sym, ◌∙◌, Bool, true, false, [], ◌∷◌, ◌++◌, length,
  arith,
}
use skinny_arm.Memory.{Mem, within, load64, load64_ext}
use skinny_arm.Rootfs.{file_at, load32}
use skinny_arm.Rootfs.Ramfs.{Layout, inode_at}
use skinny_arm.Rootfs.Ramfs.Archive.{Entry, Holds-ext}
use skinny_arm.Rootfs.Ramfs.Name.{length-snoc}
use skinny_arm.Rootfs.Ramfs.Word.{load32_ext}
use skinny_arm.Rootfs.Ramfs.Switch.{kind_bytes}
use skinny_arm.Rootfs.Ramfs.Round.{IsLayout, Frame, IsFile, file_inodes, parent_file}

-- What the rounds from file `f` and inode `k` on leave alone.
pub record Rest (t : Layout) (f k : ℕ) (m n : Mem) : Type 0 where
  pub outside :
      (x : ℕ)
      → within (file_at t.files f) (48 * (256 - f)) x ≡ false
      → within t.inodes 8192 x ≡ false
      → within t.parent_filename 16 x ≡ false
      → n x ≡ m x
  pub data_word : (j y : ℕ) → j < k → y < 8 → n (inode_at t j + y) ≡ m (inode_at t j + y)
  pub size_word : (j y : ℕ) → j < k → y < 4 → n (inode_at t j + 24 + y) ≡ m (inode_at t j + 24 + y)

module _ {t : Layout} {base : ℕ} (ok : IsLayout t base) (f : ℕ) (lf : f < 255) where
  own-outside :
      {k : ℕ} {m n : Mem}
      → Rest t (f + 1) k m n
      → (x : ℕ) → file_at t.files f ≤ x
      → x < file_at t.files f + 48
      → n x ≡ m x
  own-outside rest x lo hi =
      rest.outside x (ground arith) (ground (arith, file_inodes ok f (omega arith)))
        (ground (arith, parent_file ok f (omega arith)))

  inode_word :
      {k : ℕ} {m n : Mem} (j : ℕ)
      → Rest t (f + 1) k m n
      → j < k
      → load64 n (inode_at t j) ≡ load64 m (inode_at t j)
  inode_word {k} {m} {n} j rest lt = load64_ext n m (inode_at t j) λ x lo hi.
      let e : inode_at t j + (x - inode_at t j) ≡ x = omega arith in
      ap n (sym e) ∙ rest.data_word j (x - inode_at t j) lt (omega arith) ∙ ap m e

  inode_size :
      {k : ℕ} {m n : Mem} (j : ℕ)
      → Rest t (f + 1) k m n
      → j < k
      → load32 n (inode_at t j + 24) ≡ load32 m (inode_at t j + 24)
  inode_size {k} {m} {n} j rest lt = load32_ext m n (inode_at t j + 24) λ x lo hi.
      let e : inode_at t j + 24 + (x - (inode_at t j + 24)) ≡ x = omega arith in
      ap n (sym e) ∙ rest.size_word j (x - (inode_at t j + 24)) lt (omega arith) ∙ ap m e

  -- A file survives the rounds behind it.
  pub IsFile-kept :
      {k : ℕ} {m n : Mem} (s : ℕ) (e : Entry)
      → k ≤ 256
      → length e.name < 16
      → IsFile m t (file_at t.files f) s e k
      → Rest t (f + 1) k m n
      → IsFile n t (file_at t.files f) s e 256
  IsFile-kept {k} {m} {n} s e few short is rest = record {
    name =
        Holds-ext m n (file_at t.files f) (e.name ++ 0 ∷ [])
          (λ x lo hi. own-outside rest x lo (omega (arith, length-snoc e.name 0))) is.name;
    kind =
        Holds-ext m n (file_at t.files f + 24) (kind_bytes e.is_regular)
          (λ x lo hi. own-outside rest x (omega arith) (omega (arith, kind_size e.is_regular)))
          is.kind;
    last =
        load64_ext n m (file_at t.files f + 32)
          (λ x lo hi. own-outside rest x (omega arith) (omega arith))
        ∙ is.last;
    content = λ has.
        let d = is.content has in
        record {
          index = d.index;
          below = omega (arith, d.below);
          ino =
              load64_ext n m (file_at t.files f + 40)
                (λ x lo hi. own-outside rest x (omega arith) (omega arith))
              ∙ d.ino;
          placed = inode_word d.index rest d.below ∙ d.placed;
          size_of = inode_size d.index rest d.below ∙ d.size_of;
        };
  }
    where
      kind_size : (r : Bool) → length (kind_bytes r) ≡ 4
      kind_size true = refl
      kind_size false = refl

  -- A round and what follows it.
  pub Rest-cons :
      {k k' : ℕ} {l m n : Mem}
      → k ≤ k'
      → Frame t (file_at t.files f) k l m
      → Rest t (f + 1) k' m n
      → Rest t f k l n
  Rest-cons le frame rest = record {
    outside = λ x o1 o2 o3.
        rest.outside x (ground (arith, o1)) o2 o3 ∙ frame.outside x (ground (arith, o1)) o2 o3;
    data_word = λ j y lj ly. rest.data_word j y (omega arith) ly ∙ frame.data_word j y lj ly;
    size_word = λ j y lj ly. rest.size_word j y (omega arith) ly ∙ frame.size_word j y lj ly;
  }
