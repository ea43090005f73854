-- ===== src/Rootfs/Ramfs/Table.antt =====
-- The table of files that kernel/rootfs.c's `init_ramfs` leaves, against the archive.
use skinny_arm.Base.{
  ℕ, zero, suc, ◌+◌, ◌*◌, ◌≤◌, ◌<◌, ◌≡◌, refl, ap, sym, subst, ◌∙◌, some, List, [], ◌∷◌, length,
  arith, if◌then◌else◌,
}
use skinny_arm.Memory.{Mem}
use skinny_arm.Rootfs.{file_at}
use skinny_arm.Rootfs.Header.{Holds, newc_mark, trailer_mark, check_marks-Holds}
use skinny_arm.Rootfs.Ramfs.{Layout, inode_at, Scan, Outcome, scan_entry, scan_entries, init_ramfs}
use skinny_arm.Rootfs.Ramfs.Archive.{Entry, IsArchive, behind, SameFrom, IsArchive-from}
use skinny_arm.Rootfs.Ramfs.Round.{IsLayout, has_data, IsFile, IsRound}
use skinny_arm.Rootfs.Ramfs.Later.{Rest, IsFile-kept, Rest-cons}
use skinny_arm.Rootfs.Ramfs.Step.{scan_entry-IsRound}

-- How many entries are files with data.
abbrev pub data_files : List Entry → ℕ
data_files [] = 0
data_files (e ∷ es) = if has_data e then suc (data_files es) else data_files es

-- The entries whose headers stand from `s` on are the files from index `f` on.
abbrev pub AllFiles : Mem → Layout → (f s : ℕ) → List Entry → Type 0
AllFiles m t f s [] = Unit
AllFiles m t f s (e ∷ es) =
    IsFile m t (file_at t.files f) s e 256 × AllFiles m t (f + 1) (behind s e) es

-- The end mark stops the loop.
scan_entries-end :
    (rounds fuel : ℕ) (t : Layout) (st : Scan)
    → Holds st.mem st.file_start newc_mark
    → Holds st.mem (st.file_start + 110) trailer_mark
    → scan_entries (suc rounds) fuel t st ≡ some (some (st.file_start + 110), st.mem)
unfolding scan_entries scan_entry
scan_entries-end rounds fuel t st marked ended =
    let m = st.mem in
    rw
      (
        (check_marks-Holds st.file_start m).0 marked,
        (check_marks-Holds (st.file_start + 110) m).1 ended,
        scan_entries,
      )
      refl

scan_entries-next :
    (rounds fuel : ℕ) (t : Layout) (st st' : Scan)
    → scan_entry fuel t st ≡ some (Outcome.next st')
    → scan_entries (suc rounds) fuel t st ≡ scan_entries rounds fuel t st'
unfolding scan_entries
scan_entries-next rounds fuel t st st' run = rw (run, scan_entries) refl

module _ {t : Layout} {base : ℕ} (ok : IsLayout t base) (fuel : ℕ) (enough : 16 ≤ fuel) where
  -- The rest of the loop, from a state that has `es` before it.
  record IsScanned (st : Scan) (es : List Entry) (n : Mem) : Type 0 where
    files : AllFiles n t st.findex st.file_start es
    rest : Rest t st.findex st.iindex st.mem n

  IsArchive-behind :
      {st' : Scan} (st : Scan) (e : Entry) (es : List Entry) (end : ℕ) (lf : st.findex < 256)
      → base ≤ st.file_start
      → IsRound ok st.findex lf st e st'
      → IsArchive st.mem (behind st.file_start e) es end
      → IsArchive st'.mem st'.file_start es end
  IsArchive-behind {st'} st e es end lf above r is =
      subst (λ a. IsArchive st'.mem a es end) (sym r.start)
        (IsArchive-from base st.mem st'.mem
          (λ x le.
            r.frame.outside x (ground (arith, ok.files_end)) (ground (arith, ok.inodes_end))
              (ground (arith, ok.parent_end)))
          (behind st.file_start e) es end (omega arith) is)

  -- A round, and the rounds behind it.
  IsScanned-cons :
      {st' : Scan} {n : Mem} (st : Scan) (e : Entry) (es : List Entry) (lf : st.findex < 256)
      → st.findex + length (e ∷ es) < 256
      → st.iindex + 2 * data_files (e ∷ es) < 256
      → length e.name < 16
      → IsRound ok st.findex lf st e st'
      → IsScanned st' es n
      → IsScanned st (e ∷ es) n
  IsScanned-cons {st'} {n} st e es lf few inodes short r scanned =
      let next_file : st'.findex ≡ st.findex + 1 = omega (arith, r.findex) in
      let grown : st.iindex ≤ st'.iindex = ground (arith, r.iindex) in
      let bounded : st'.iindex ≤ 256 = ground (arith, r.iindex) in
      let rest = subst (λ i. Rest t i st'.iindex st'.mem n) next_file scanned.rest in
      record {
        files = (
          IsFile-kept ok st.findex (omega arith) st.file_start e bounded short r.entered rest,
          subst (λ i. AllFiles n t i (behind st.file_start e) es) next_file
              (subst (λ a. AllFiles n t st'.findex a es) r.start scanned.files),
        );
        rest = Rest-cons ok st.findex (omega arith) grown r.frame rest;
      }

  scan_entries-IsScanned :
      (es : List Entry) (rounds : ℕ) (st : Scan) (end : ℕ)
      → length es < rounds
      → st.findex + length es < 256
      → st.iindex + 2 * data_files es < 256
      → ((c : ℕ) × (c < 256) × (st.current_ino ≡ inode_at t c))
      → base ≤ st.file_start
      → IsArchive st.mem st.file_start es end
      → (n : Mem) × (scan_entries rounds fuel t st ≡ some (some end, n)) × IsScanned st es n
  scan_entries-IsScanned es zero st end more few inodes inode above is = absurd (omega arith)
  scan_entries-IsScanned [] (suc rounds) st end more few inodes inode above is = (
    st.mem,
    scan_entries-end rounds fuel t st is.0 is.1 ∙ ap (λ a. some (some a, st.mem)) (sym is.2),
    record {
      files = tt;
      rest = record {
        outside = λ x o1 o2 o3. refl;
        data_word = λ j y lj ly. refl;
        size_word = λ j y lj ly. refl;
      };
    },
  )
  scan_entries-IsScanned (e ∷ es) (suc rounds) st end more few inodes inode above is =
      let (st', run, r) =
        scan_entry-IsRound ok st (omega arith) e above is.0 is.1 fuel enough (omega arith) inode
          (λ has. ground (arith, has)) in
      let (n, run', scanned) =
        scan_entries-IsScanned es rounds st' end (omega arith) (omega (arith, r.findex))
          (ground (arith, r.iindex)) r.inode (omega (arith, r.start))
          (IsArchive-behind st e es end (omega arith) above r is.2) in
      (
        n,
        scan_entries-next rounds fuel t st st' run ∙ run',
        IsScanned-cons st e es (omega arith) (omega arith) inodes is.0.short r scanned,
      )

  -- `init_ramfs` reads a newc archive of at most 255 entries at the top of the tree, at most 127 of
  -- them files with data, behind the tables and short enough to end below `2 ^ 64`. Each entry has a
  -- name of fewer than 16 bytes without NUL and `/` that does not start with TRAILER!!!, a size below
  -- `2 ^ 32`, and as its mode exactly 81A4, a file with rights 0644, or 41ED, a directory with rights
  -- 0755. With a round for each entry and one more it returns 0 and the address of the end mark's
  -- name. The file of each entry, in order, has its name, its type and no sibling, and a file with
  -- data has an inode with the place and the size of the data in the archive, which is as it was.
  pub init_ramfs-AllFiles :
      (es : List Entry) (rounds start end : ℕ) (m : Mem)
      → length es < rounds
      → length es < 256
      → data_files es < 128
      → base ≤ start
      → IsArchive m start es end
      → (n : Mem) × (init_ramfs rounds fuel start t m ≡ some (some end, n))
        × AllFiles n t 0 start es
        × SameFrom base m n
  unfolding init_ramfs
  init_ramfs-AllFiles es rounds start end m more few inodes above is =
      let st : Scan = record {
        findex = 0;
        iindex = 0;
        current_ino = inode_at t 0;
        file_start = start;
        mem = m;
      } in
      let (n, run, scanned) =
        scan_entries-IsScanned es rounds st end more (omega arith) (omega arith)
          (0, omega arith, refl) above is in
      (
        n,
        run,
        scanned.files,
        λ x le.
            scanned.rest.outside x (ground (arith, ok.files_end)) (ground (arith, ok.inodes_end))
              (ground (arith, ok.parent_end)),
      )
