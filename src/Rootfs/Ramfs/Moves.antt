-- ===== src/Rootfs/Ramfs/Moves.antt =====
-- The header of an entry in kernel/rootfs.c's `init_ramfs`, and the move to the next one.
use skinny_arm.Base.{
  ℕ, ◌+◌, ◌%◌, ◌^◌, ◌<◌, ◌≡◌, ◌≢◌, inl, inr, refl, Bool, true, false, ◌&&◌, not, Bool-cases, length,
  arith, ltb, ◌==◌,
}
use skinny_arm.Memory.{Mem}
use skinny_arm.Rootfs.{FileType, get_file_type, check_end_archive}
use skinny_arm.Rootfs.Hex.{int_from_string-IsPrinted}
use skinny_arm.Rootfs.Header.{Holds, check_marks-Holds, get_file_type_lem}
use skinny_arm.Rootfs.Ramfs.{Layout, Scan, padded, place_data, advance, enter, scan_entry}
use skinny_arm.Rootfs.Ramfs.Archive.{Entry, ident, aligned, IsEntry}

abbrev pub type_of : Bool → FileType
type_of true = FileType.regular
type_of false = FileType.directory

get_file_type-ident :
    (r : Bool) (arr : ℕ) (m : Mem) → Holds m arr (ident r) → get_file_type arr m ≡ type_of r
get_file_type-ident true arr m h = (get_file_type_lem arr m).0 h
get_file_type-ident false arr m h = (get_file_type_lem arr m).1 h

-- The header of an entry leads to the `switch`.
pub scan_entry-enter :
    (fuel : ℕ) (t : Layout) (st : Scan) (e : Entry)
    → IsEntry st.mem st.file_start e
    → scan_entry fuel t st ≡ enter fuel e.file_size (length e.name + 1) (type_of e.is_regular) t st
unfolding scan_entry
scan_entry-enter fuel t st e is =
    let s = st.file_start in
    let m = st.mem in
    let marks = check_marks-Holds s m in
    let end_marks = check_marks-Holds (s + 110) m in
    let no_end : check_end_archive (s + 110) m ≡ false =
      elim (Bool-cases (check_end_archive (s + 110) m)) [
        | inl found ↦ absurd (is.no_end (end_marks.2 found))
        | inr missing ↦ missing
      ] in
    rw
      (
        marks.0 is.marked,
        no_end,
        get_file_type-ident e.is_regular (s + 18) m is.mode,
        int_from_string-IsPrinted (s + 54) 8 e.file_size m (omega (arith, is.small)) is.sized,
        int_from_string-IsPrinted (s + 94) 8 (length e.name + 1) m (omega (arith, is.short))
            is.name_sized,
      )
      refl

pub padded_lem : (x : ℕ) → x < 2 ^ 63 → padded x ≡ aligned x
padded_lem x small = omega arith

-- Without data the last step only moves on.
pub advance-plain :
    (size name_size : ℕ) (regular : Bool) (t : Layout) (st : Scan)
    → name_size < 2 ^ 32
    → size < 2 ^ 32
    → (regular && not (size == 0)) ≡ false
    → advance size name_size regular t st ≡ record st {
      file_start = (aligned (110 + name_size) + st.file_start + aligned size) % 2 ^ 64;
      findex = (st.findex + 1) % 256;
    }
unfolding advance
advance-plain size name_size regular t st short small plain =
    let test : (ltb 0 size && ltb size (2 ^ 63) && regular) ≡ false = ground arith in
    rw (test, padded_lem (110 + name_size) (omega arith), padded_lem size (omega arith)) refl

pub advance-data :
    (size name_size : ℕ) (t : Layout) (st : Scan)
    → size ≢ 0
    → name_size < 2 ^ 32
    → size < 2 ^ 32
    → let st' = place_data size (aligned (110 + name_size) + st.file_start) t st in
      advance size name_size true t st ≡ record st' {
        file_start = (aligned (110 + name_size) + st.file_start + aligned size) % 2 ^ 64;
        findex = (st'.findex + 1) % 256;
      }
unfolding advance place_data
advance-data size name_size t st some_data short small =
    let test : (ltb 0 size && ltb size (2 ^ 63) && true) ≡ true = ground arith in
    rw (test, padded_lem (110 + name_size) (omega arith), padded_lem size (omega arith)) refl
