-- ===== src/Rootfs.antt =====
-- kernel/rootfs.c, lines 36 to 160 and 343 to 383: the numbers and marks of a cpio archive's headers,
-- and the table of files. `files` and `inodes` lie in memory, and a pointer to one is its address: a
-- `struct file` has 48 bytes, with `next_file` at 32 and the union of `children` and `ino` at 40; a
-- `struct inode` has `data_size` at 24. -1 is 2 ^ 64 - 1 in a 64-bit number.
pub mod Hex
pub mod Header
pub mod Search
pub mod Listing
pub mod Ramfs
use skinny_arm.Base.{
  ℕ, zero, suc, ◌+◌, ◌-◌, ◌*◌, ◌%◌, ◌^◌, Bool, true, false, Option, none, some, List, [], ◌∷◌, ltb,
  ◌==◌, not, if◌then◌else◌,
}
use skinny_arm.Memory.{Mem, load64}
use skinny_arm.Str.{strequal}

abbrev pub minus_one : ℕ
minus_one = 2 ^ 64 - 1

unfoldable pub int_from_char : ℕ → ℕ
int_from_char c =
    if c == 48
    then 0
    else if c == 49
    then 1
    else if c == 50
    then 2
    else if c == 51
    then 3
    else if c == 52
    then 4
    else if c == 53
    then 5
    else if c == 54
    then 6
    else if c == 55
    then 7
    else if c == 56
    then 8
    else if c == 57
    then 9
    else if c == 65
    then 10
    else if c == 66
    then 11
    else if c == 67
    then 12
    else if c == 68
    then 13
    else if c == 69
    then 14
    else if c == 70
    then 15
    else minus_one

-- The `for` of `int_from_string`, with `n` rounds left.
unfoldable pub number_loop : (n byte_stream total : ℕ) → Mem → ℕ
number_loop zero s total m = total
number_loop (suc n) s total m =
    let current = int_from_char (m s) in
    let rest = number_loop n (s + 1) ((total * 16 + current) % 2 ^ 64) m in
    if current == minus_one then current else rest

unfoldable pub int_from_string : (string size : ℕ) → Mem → ℕ
int_from_string string size m =
    let total = int_from_char (m string) in
    if size == 0
    then 0
    else if total == minus_one
    then minus_one
    else number_loop (size - 1) (string + 1) total m

-- `DIR_IDENT`, `FILE_IDENT`, `MAGIC`, `END`
abbrev pub dir_ident : List ℕ
dir_ident = 52 ∷ 49 ∷ 69 ∷ 68 ∷ []

abbrev pub file_ident : List ℕ
file_ident = 56 ∷ 49 ∷ 65 ∷ 52 ∷ []

abbrev pub magic : List ℕ
magic = 48 ∷ 55 ∷ 48 ∷ 55 ∷ 48 ∷ 49 ∷ []

abbrev pub end_mark : List ℕ
end_mark = 84 ∷ 82 ∷ 65 ∷ 73 ∷ 76 ∷ 69 ∷ 82 ∷ 33 ∷ 33 ∷ 33 ∷ []

-- `enum FILETYPE`
pub data FileType : Type 0 where
  invalid directory regular : FileType

-- Either `for` of `get_file_type`: where `i` stands behind it.
unfoldable pub matched : (ident : List ℕ) (i arr : ℕ) → Mem → ℕ
matched [] i arr m = i
matched (c ∷ cs) i arr m =
    let rest = matched cs (i + 1) arr m in if m (arr + i) == c then rest else i

unfoldable pub get_file_type : (arr : ℕ) → Mem → FileType
get_file_type arr m =
    if matched file_ident 0 arr m == 4
    then FileType.regular
    else if matched dir_ident 0 arr m == 4
    then FileType.directory
    else FileType.invalid

-- The `for` of `check_magic` and of `check_end_archive`: whether it runs to its end.
unfoldable pub check_bytes : (expected : List ℕ) (byte_stream : ℕ) → Mem → Bool
check_bytes [] p m = true
check_bytes (c ∷ cs) p m = let rest = check_bytes cs (p + 1) m in if m p == c then rest else false

-- True for 0, false for -1.
unfoldable pub check_magic : (byte_stream : ℕ) → Mem → Bool
check_magic byte_stream m = check_bytes magic byte_stream m

-- True for 1, false for 0.
unfoldable pub check_end_archive : (byte_stream : ℕ) → Mem → Bool
check_end_archive byte_stream m = check_bytes end_mark byte_stream m

-- `&files[i]`; `file_name` is its first member.
abbrev pub file_at : (files i : ℕ) → ℕ
file_at files i = files + 48 * i

-- The `for` of `search_file`, with `n` files left. `none` only if `strequal` runs out of fuel.
unfoldable pub search_loop : (n i fuel name files : ℕ) → Mem → Option (Bool × ℕ)
search_loop zero i fuel name files m = some (false, 0)
search_loop (suc n) i fuel name files m = elim (strequal fuel (file_at files i) name m) [
  | none ↦ none
  | some true ↦ some (true, file_at files i)
  | some false ↦ search_loop n (i + 1) fuel name files m
]

-- `search_file`: true for 1, false for 0, and what `*f` becomes.
unfoldable pub search_file : (fuel name files : ℕ) → Mem → Option (Bool × ℕ)
search_file fuel name files m = search_loop 256 0 fuel name files m

-- The 32-bit word at `a`.
unfoldable pub load32 : Mem → ℕ → ℕ
load32 m a = m a + 2 ^ 8 * m (a + 1) + 2 ^ 16 * m (a + 2) + 2 ^ 24 * m (a + 3)

-- `current_file->ino->data_size`
abbrev pub data_size_of : Mem → ℕ → ℕ
data_size_of m file = load32 m (load64 m (file + 40) + 24)

-- `read`: true for 0, false for -1.
unfoldable pub read : (fuel filename offset files : ℕ) → Mem → Option Bool
read fuel filename offset files m = elim (search_file fuel filename files m) [
  | none ↦ none
  | some (false, _) ↦ some false
  | some (true, file) ↦ some (not (ltb (data_size_of m file) offset))
]

-- The `while` of `ls` on fuel: the names that it prints, by their addresses.
unfoldable pub list_names : (fuel file : ℕ) → Mem → Option (List ℕ)
list_names zero file m = none
list_names (suc fuel) file m = elim (file == 0) [
  | true ↦ some []
  | false ↦ elim (list_names fuel (load64 m (file + 32)) m) [
    | none ↦ none
    | some names ↦ some (file ∷ names)
  ]
]

-- `ls`: true for 0, false for -1, and the names that it prints.
unfoldable pub ls : (fuel filepath files : ℕ) → Mem → Option (Bool × List ℕ)
ls fuel filepath files m = elim (search_file fuel filepath files m) [
  | none ↦ none
  | some (false, _) ↦ some (false, [])
  | some (true, file) ↦ elim (list_names fuel file m) [
    | none ↦ none
    | some names ↦ some (true, names)
  ]
]
