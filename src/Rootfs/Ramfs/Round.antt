-- ===== src/Rootfs/Ramfs/Round.antt =====
-- One round of kernel/rootfs.c's `init_ramfs` over an entry at the top of the tree.
use skinny_arm.Base.{
  ℕ, ◌+◌, ◌%◌, ◌^◌, ◌≤◌, ◌<◌, ◌≡◌, ◌≢◌, ◌⊎◌, refl, ◌∙◌, Bool, true, false, ◌&&◌, not, some, List,
  [], ◌∷◌, ◌++◌, All, length, arith, ◌==◌, if◌then◌else◌,
}
use skinny_arm.Memory.{Mem, within, load64, store64}
use skinny_arm.Rootfs.{load32, file_at}
use skinny_arm.Rootfs.Header.{Holds}
use skinny_arm.Rootfs.Ramfs.{
  Layout, inode_at, Scan, current_file, clear_names, parse_name, advance, Outcome, finish_entry,
}
use skinny_arm.Rootfs.Ramfs.Archive.{Entry, aligned, behind, Holds-from, Holds-ext}
use skinny_arm.Rootfs.Ramfs.Name.{
  clear_names_lem, parse_name-IsNamed, IsLinked, store-IsLinked, save_parent-orphan,
}
use skinny_arm.Rootfs.Ramfs.Switch.{kind_bytes, Keeps}

-- The tables and the array lie apart from one another, below `base`.
pub record IsLayout (t : Layout) (base : ℕ) : Type 0 where
  pub files_end : t.files + 12288 ≤ base
  pub inodes_end : t.inodes + 8192 ≤ base
  pub parent_end : t.parent_filename + 16 ≤ base
  pub small : base < 2 ^ 64
  pub files_inodes : (t.files + 12288 ≤ t.inodes) ⊎ (t.inodes + 8192 ≤ t.files)
  pub files_parent : (t.files + 12288 ≤ t.parent_filename) ⊎ (t.parent_filename + 16 ≤ t.files)
  pub inodes_parent : (t.inodes + 8192 ≤ t.parent_filename) ⊎ (t.parent_filename + 16 ≤ t.inodes)

-- As `Keeps`, with the parent's name written too.
pub record Frame (t : Layout) (file k : ℕ) (m n : Mem) : Type 0 where
  pub outside :
      (x : ℕ)
      → within file 48 x ≡ false
      → within t.inodes 8192 x ≡ false
      → within t.parent_filename 16 x ≡ false
      → n x ≡ m x
  pub data_word : (j y : ℕ) → j < k → y < 8 → n (inode_at t j + y) ≡ m (inode_at t j + y)
  pub size_word : (j y : ℕ) → j < k → y < 4 → n (inode_at t j + 24 + y) ≡ m (inode_at t j + 24 + y)

abbrev pub has_data : Entry → Bool
has_data e = e.is_regular && not (e.file_size == 0)

-- Where the data of an entry at `s` starts.
abbrev pub data_at : ℕ → Entry → ℕ
data_at s e = aligned (110 + (length e.name + 1)) + s

-- The inode of a file with data, one of the first `k`.
pub record IsData (m : Mem) (t : Layout) (file place size k : ℕ) : Type 0 where
  pub index : ℕ
  pub below : index < k
  pub ino : load64 m (file + 40) ≡ inode_at t index
  pub placed : load64 m (inode_at t index) ≡ place
  pub size_of : load32 m (inode_at t index + 24) ≡ size

-- The `struct file` of an entry whose header stood at `s`.
pub record IsFile (m : Mem) (t : Layout) (file s : ℕ) (e : Entry) (k : ℕ) : Type 0 where
  pub name : Holds m file (e.name ++ 0 ∷ [])
  pub kind : Holds m (file + 24) (kind_bytes e.is_regular)
  pub last : load64 m (file + 32) ≡ 0
  pub content : has_data e ≡ true → IsData m t file (data_at s e) e.file_size k

finish_entry-run :
    (fuel size name_size : ℕ) (regular : Bool) (t : Layout) (st : Scan) (named : Mem)
    → parse_name fuel 0
        (st.file_start + 110)
        (current_file t st)
        t.parent_filename
        (clear_names 16 0 (current_file t st) t.parent_filename st.mem)
      ≡ some named
    → store64 named (current_file t st + 32) 0 t.parent_filename ≡ 0
    → finish_entry fuel size name_size regular t st
      ≡ some (
          Outcome.next (
            advance size name_size regular t
              (record st { mem = store64 named (current_file t st + 32) 0 })))
unfolding finish_entry
finish_entry-run fuel size name_size regular t st named run orphan =
    rw (run, finish_entry)
      (rw
        (
          save_parent-orphan fuel (current_file t st) t (store64 named (current_file t st + 32) 0)
              orphan,
          finish_entry,
        )
        refl)

module _ {t : Layout} {base : ℕ} (ok : IsLayout t base) (f : ℕ) (lf : f < 256) where
  abbrev pub file : ℕ
  file = file_at t.files f

  pub file_inodes : (file + 48 ≤ t.inodes) ⊎ (t.inodes + 8192 ≤ file)
  file_inodes = ground (arith, ok.files_inodes)

  pub parent_file : (t.parent_filename + 16 ≤ file) ⊎ (file + 48 ≤ t.parent_filename)
  parent_file = ground (arith, ok.files_parent)

  pub Keeps-Frame : {k : ℕ} {m n : Mem} → Keeps t file k m n → Frame t file k m n
  Keeps-Frame q = record {
    outside = λ x o1 o2 o3. q.outside x o1 o2;
    data_word = q.data_word;
    size_word = q.size_word;
  }

  pub IsLinked-Frame :
      {k : ℕ} {cs : List ℕ} {m n : Mem}
      → k ≤ 256
      → IsLinked m file t.parent_filename cs n
      → Frame t file k m n
  IsLinked-Frame few is = record {
    outside = λ x o1 o2 o3. is.same x (ground (arith, o1)) o3 (ground (arith, o1));
    data_word = λ j y lj ly.
        is.same (inode_at t j + y) (ground (arith, file_inodes)) (ground (arith, ok.inodes_parent))
          (ground (arith, file_inodes));
    size_word = λ j y lj ly.
        is.same (inode_at t j + 24 + y) (ground (arith, file_inodes))
          (ground (arith, ok.inodes_parent)) (ground (arith, file_inodes));
  }

  pub Frame-trans :
      {k : ℕ} {m n o : Mem} → Frame t file k m n → Frame t file k n o → Frame t file k m o
  Frame-trans p q = record {
    outside = λ x o1 o2 o3. q.outside x o1 o2 o3 ∙ p.outside x o1 o2 o3;
    data_word = λ j y lj ly. q.data_word j y lj ly ∙ p.data_word j y lj ly;
    size_word = λ j y lj ly. q.size_word j y lj ly ∙ p.size_word j y lj ly;
  }

  -- What a round leaves of the entry whose header stood at `st.file_start`.
  pub record IsRound (st : Scan) (e : Entry) (st' : Scan) : Type 0 where
    pub findex : st'.findex ≡ (st.findex + 1) % 256
    pub start : st'.file_start ≡ behind st.file_start e
    pub iindex : st'.iindex ≡ (if has_data e then st.iindex + 2 else st.iindex)
    pub inode : (c : ℕ) × (c < 256) × (st'.current_ino ≡ inode_at t c)
    pub frame : Frame t file st.iindex st.mem st'.mem
    pub entered : IsFile st'.mem t file st.file_start e st'.iindex

  -- The kind survives the name.
  pub linked-kind :
      {cs : List ℕ} {m n : Mem} (regular : Bool)
      → Holds m (file + 24) (kind_bytes regular)
      → IsLinked m file t.parent_filename cs n
      → Holds n (file + 24) (kind_bytes regular)
  linked-kind {cs} {m} {n} regular h is =
      Holds-ext m n (file + 24) (kind_bytes regular)
        (λ x lo hi.
          is.same x (ground arith) (ground (arith, parent_file, kind_size regular))
            (ground (arith, kind_size regular)))
        h
    where
      kind_size : (r : Bool) → length (kind_bytes r) ≡ 4
      kind_size true = refl
      kind_size false = refl

module _ {t : Layout} {base : ℕ} (ok : IsLayout t base) (st : Scan) (lf : st.findex < 256) where
  abbrev own : ℕ
  own = current_file t st

  -- Behind the `switch`, with the name still in the archive.
  pub finish_entry-IsLinked :
      (fuel size name_size : ℕ) (regular : Bool) (cs : List ℕ)
      → base ≤ st.file_start
      → 16 ≤ fuel
      → length cs < 16
      → All (λ c. (c ≢ 0) × (c ≢ 47)) cs
      → All (λ c. c < 256) cs
      → Holds st.mem (st.file_start + 110) (cs ++ 0 ∷ [])
      → (n : Mem) × (finish_entry fuel size name_size regular t st
          ≡ some (Outcome.next (advance size name_size regular t (record st { mem = n }))))
        × IsLinked st.mem own t.parent_filename cs n
  finish_entry-IsLinked fuel size name_size regular cs above enough short flat bytes h =
      let cleared = clear_names 16 0 own t.parent_filename st.mem in
      let still =
        Holds-from base st.mem cleared
          (λ x le.
            clear_names_lem 16 0 own t.parent_filename st.mem x
            ∙ ground (arith, ok.files_end, ok.parent_end))
          (st.file_start + 110) (cs ++ 0 ∷ []) (omega arith) h in
      let (named, run, is) =
        parse_name-IsNamed cs fuel 0 (st.file_start + 110) own t.parent_filename cleared
          (omega arith) (omega arith) (omega (arith, ok.files_end)) flat bytes still in
      let linked =
        store-IsLinked own t.parent_filename cs st.mem (parent_file ok st.findex lf) short named
          is in
      (
        store64 named (own + 32) 0,
        finish_entry-run fuel size name_size regular t st named run linked.orphan,
        linked,
      )
