-- ===== src/Tests/Files.antt =====
-- The archive's headers and the table of files at concrete inputs.
use skinny_arm.Base.{
  ℕ, ◌+◌, ◌-◌, ◌<◌, ◌≡◌, ◌≢◌, refl, true, false, some, List, [], ◌∷◌, ◌++◌, length, get_or, arith,
  ◌==◌, leb, if◌then◌else◌,
}
use skinny_arm.Memory.{Mem, store8, load64}
use skinny_arm.Str.{IsString, strequal, strequal_lem}
use skinny_arm.Rootfs.{
  int_from_string, check_bytes, check_magic, check_end_archive, file_at, search_file, ls,
}
use skinny_arm.Rootfs.Hex.{int_from_string-IsPrinted}
use skinny_arm.Rootfs.Header.{newc_mark, trailer_mark, Decides, check_marks_lem}
use skinny_arm.Rootfs.Search.{IsTable, Starts, Differs, search_file_lem}
use skinny_arm.Rootfs.Listing.{Siblings, ls-Siblings}

-- The given bytes from 0x400 on.
abbrev text : List ℕ → Mem
text cs x = if leb 0x400 x then get_or cs (x - 0x400) 0 else 0

-- `0000001F`
abbrev size_text : Mem
size_text = text (48 ∷ 48 ∷ 48 ∷ 48 ∷ 48 ∷ 48 ∷ 49 ∷ 70 ∷ [])

int_from_string-IsPrinted_example : int_from_string 0x400 8 size_text ≡ 31
int_from_string-IsPrinted_example =
    int_from_string-IsPrinted 0x400 8 31 size_text (omega arith)
      ((((((((refl, refl), refl), refl), refl), refl), refl), refl), refl)

-- `0000001f`
abbrev small_text : Mem
small_text = text (48 ∷ 48 ∷ 48 ∷ 48 ∷ 48 ∷ 48 ∷ 49 ∷ 102 ∷ [])

-- `070701` and `TRAILER!!!`
abbrev marks : Mem
marks = text (newc_mark ++ trailer_mark)

check_marks_lem_example :
    Decides (check_magic 0x400 marks) marks 0x400 (48 ∷ 55 ∷ 48 ∷ 55 ∷ 48 ∷ 49 ∷ [])
    × Decides
        (check_end_archive 0x400 marks)
        marks
        0x400
        (84 ∷ 82 ∷ 65 ∷ 73 ∷ 76 ∷ 69 ∷ 82 ∷ 33 ∷ 33 ∷ 33 ∷ [])
check_marks_lem_example = check_marks_lem 0x400 marks

marked : check_magic 0x400 marks ≡ true
unfolding check_magic check_bytes
marked = refl

marked_lem : marks 0x405 ≡ 49
marked_lem = check_marks_lem_example.0.1 marked 5 (omega arith)

-- A table at 0x10000 whose first file is named `a`, the others having empty names, and the name `b`
-- at 0x200.
abbrev disk : Mem
disk = store8 (store8 (λ _. 0) 0x10000 97) 0x200 98

abbrev len : ℕ → ℕ
len i = if i == 0 then 1 else 0

disk-IsTable : IsTable 2 0x10000 disk len
unfolding store8
disk-IsTable = record { names = named; enough = λ i h. ground arith }
  where
    named : (i : ℕ) → i < 256 → IsString disk (file_at 0x10000 i) (len i)
    named i h = record { chars = λ j lt. ground arith; end = ground arith }

search_file_lem_example :
    ((f : ℕ)
      → f < 256
      → Starts disk 0x10000 0x200 len f
      → ((j : ℕ) → j < f → Differs disk 0x10000 0x200 len j)
      → search_file 2 0x200 0x10000 disk ≡ some (true, file_at 0x10000 f))
    × (((j : ℕ) → j < 256 → Differs disk 0x10000 0x200 len j)
        → search_file 2 0x200 0x10000 disk ≡ some (false, 0))
search_file_lem_example = search_file_lem 2 0x200 0x10000 disk len disk-IsTable

-- No file is named `b`, and the first entry with an empty name is found.
found_empty : search_file 2 0x200 0x10000 disk ≡ some (true, 0x10030)
unfolding store8
found_empty =
    search_file_lem_example.0 1 (omega arith) (λ j h. absurd (omega arith))
      λ j h. (0, ground arith, ground arith)

ls-Siblings_example :
    ((file : ℕ) (fs : List ℕ)
      → search_file 2 0x200 0x10000 disk ≡ some (true, file)
      → Siblings disk file fs
      → length fs < 2
      → ls 2 0x200 0x10000 disk ≡ some (true, fs))
    × ((file : ℕ)
        → search_file 2 0x200 0x10000 disk ≡ some (false, file)
        → ls 2 0x200 0x10000 disk ≡ some (false, []))
ls-Siblings_example = ls-Siblings 2 0x200 0x10000 disk

printed_empty : ls 2 0x200 0x10000 disk ≡ some (true, 0x10030 ∷ [])
unfolding store8 load64
printed_empty =
    ls-Siblings_example.0 0x10030 (0x10030 ∷ []) found_empty (refl, omega arith, refl) (omega arith)

disk-IsString : IsString disk 0x10000 1
unfolding store8
disk-IsString = record { chars = λ i h. ground arith; end = refl }

strequal_lem_example :
    (((i : ℕ) → i < 1 → disk (0x10000 + i) ≡ disk (0x200 + i))
      → strequal 2 0x10000 0x200 disk ≡ some true)
    × ((i : ℕ)
        → i < 1
        → disk (0x10000 + i) ≢ disk (0x200 + i)
        → strequal 2 0x10000 0x200 disk ≡ some false)
strequal_lem_example = strequal_lem 1 2 0x10000 0x200 disk disk-IsString (omega arith)
