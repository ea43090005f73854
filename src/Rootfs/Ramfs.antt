-- ===== src/Rootfs/Ramfs.antt =====
-- kernel/rootfs.c's `init_ramfs`, lines 162 to 342: the table of files is filled from the archive. The
-- local array `parent_filename` lies in memory too, since `search_file` reads it through a pointer.
-- `c_ino` and its like are globals that nothing else reads, and are the addresses themselves here.
-- A `struct file` has `parent` at 16 and `type` at 24; a `struct inode` has `data` at 0,
-- `inode_number` at 8, `device_number` at 16 and `data_size` at 24.
pub mod Archive
pub mod Name
mod Word
mod Switch
pub mod Round
mod Moves
mod Step
mod Later
pub mod Table
use skinny_arm.Base.{
  ℕ, zero, suc, ◌+◌, ◌-◌, ◌*◌, ◌/◌, ◌%◌, ◌^◌, Bool, true, false, ◌&&◌, not, Option, none, some, ltb,
  ◌==◌, if◌then◌else◌,
}
use skinny_arm.Memory.{Mem, within, load64, store8, store64}
use skinny_arm.Rootfs.{
  FileType, int_from_string, get_file_type, check_magic, check_end_archive, file_at, search_file,
}

-- The addresses of `files`, `inodes` and `parent_filename`.
pub record Layout : Type 0 where
  pub files : ℕ
  pub inodes : ℕ
  pub parent_filename : ℕ

-- `&inodes[i]`
abbrev pub inode_at : Layout → ℕ → ℕ
inode_at t i = t.inodes + 32 * i

-- The variables of the `while(1)` at the start of a round; `current_file` is `&files[findex]`.
pub record Scan : Type 0 where
  pub findex : ℕ  -- uint8_t
  pub iindex : ℕ  -- uint8_t
  pub current_ino : ℕ
  pub file_start : ℕ
  pub mem : Mem

abbrev pub current_file : Layout → Scan → ℕ
current_file t st = file_at t.files st.findex

-- `*(uint32_t *)a = v`
unfoldable pub store32 : Mem → ℕ → ℕ → Mem
store32 m a v x = if within a 4 x then v / 256 ^ (x - a) % 256 else m x

-- The `case DIRECTORY`; `children` and `ino` are one word.
unfoldable pub enter_directory : (file : ℕ) → Mem → Mem
enter_directory file m = store64 (store64 (store32 m (file + 24) 1) (file + 40) 0) (file + 40) 0

-- The `for` over `inodes`, with `n` left: the first with these numbers.
unfoldable pub find_inode : (n i device_nr inode_nr : ℕ) → Layout → Mem → Option ℕ
find_inode zero i device_nr inode_nr t m = none
find_inode (suc n) i device_nr inode_nr t m =
    let rest = find_inode n (i + 1) device_nr inode_nr t m in
    if load64 m (inode_at t i + 16) == device_nr && load64 m (inode_at t i + 8) == inode_nr
    then some (inode_at t i)
    else rest

unfoldable pub set_ino : (file : ℕ) → Option ℕ → Mem → Mem
set_ino file none m = m
set_ino file (some ino) m = store64 m (file + 40) ino

-- The `case REGULAR`
unfoldable pub enter_regular : (file_size : ℕ) → Layout → Scan → Scan
enter_regular file_size t st =
    let m = st.mem in
    let file = current_file t st in
    let device_nr = load64 m (st.file_start + 70) in
    let inode_nr = load64 m (st.file_start + 6) in
    let linked = set_ino file (find_inode 256 0 device_nr inode_nr t m) m in
    let numbered =
      store64 (store64 m (st.current_ino + 16) device_nr) (st.current_ino + 8) inode_nr in
    let iindex = (st.iindex + 1) % 256 in
    if file_size == 0 then record st { mem = store32 linked (file + 24) 2 } else record st {
      mem = store32 numbered (file + 24) 2;
      iindex = iindex;
      current_ino = inode_at t iindex;
    }

-- The `for` that clears both names, with `n` rounds left.
unfoldable pub clear_names : (n i file_name parent_filename : ℕ) → Mem → Mem
clear_names zero i file parent m = m
clear_names (suc n) i file parent m =
    clear_names n (i + 1) file parent (store8 (store8 m (file + i) 0) (parent + i) 0)

-- At a `/`, the first `for`: the name so far is the parent's.
unfoldable pub move_chars : (n j file_name parent_filename : ℕ) → Mem → Mem
move_chars zero j file parent m = m
move_chars (suc n) j file parent m =
    move_chars n (j + 1) file parent (store8 (store8 m (parent + j) (m (file + j))) (file + j) 0)

-- The second `for`
unfoldable pub clear_chars : (n j file_name parent_filename : ℕ) → Mem → Mem
clear_chars zero j file parent m = m
clear_chars (suc n) j file parent m =
    clear_chars n (j + 1) file parent (store8 (store8 m (parent + j) 0) (file + j) 0)

-- The `while` over the characters of the name, on fuel.
unfoldable pub parse_name :
    (fuel current_name_index byte_stream file_name parent_filename : ℕ) → Mem → Option Mem
parse_name zero index bs file parent m = none
parse_name (suc fuel) index bs file parent m =
    let moved = clear_chars (16 - index) index file parent (move_chars index 0 file parent m) in
    let below = parse_name fuel 0 (bs + 1) file parent moved in
    let stored = store8 m (file + index) (m bs) in
    let further = parse_name fuel ((index + 1) % 16) (bs + 1) file parent stored in
    if ltb index 16
    then if m bs == 47 then below else if m bs == 0 then some stored else further
    else some m

-- `while(sibiling->next_file != NULL)`, on fuel.
unfoldable pub last_sibling : (fuel sibling : ℕ) → Mem → Option ℕ
last_sibling zero sibling m = none
last_sibling (suc fuel) sibling m =
    let rest = last_sibling fuel (load64 m (sibling + 32)) m in
    if load64 m (sibling + 32) == 0 then some sibling else rest

unfoldable pub set_next_file : (file : ℕ) → Mem → Option ℕ → Option Mem
set_next_file file m none = none
set_next_file file m (some last) = some (store64 m (last + 32) file)

-- Behind `search_file`, which has set `current_file->parent`.
unfoldable pub add_child : (found : Bool) (fuel file : ℕ) → Mem → Option Mem
add_child false fuel file m = some m
add_child true fuel file m =
    let parent = load64 m (file + 16) in
    let sibling = load64 m (parent + 40) in
    let appended = set_next_file file m (last_sibling fuel sibling m) in
    if sibling == 0 then some (store64 m (parent + 40) file) else appended

unfoldable pub save_parent : (fuel file : ℕ) → Layout → Mem → Option Mem
save_parent fuel file t m = elim (m t.parent_filename == 0) [
  | true ↦ some m
  | false ↦ elim (search_file fuel t.parent_filename t.files m) [
    | none ↦ none
    | some (found, f) ↦ add_child found fuel file (store64 m (file + 16) f)
  ]
]

-- `set data`
unfoldable pub place_data : (file_size byte_stream : ℕ) → Layout → Scan → Scan
place_data file_size bs t st =
    let file = current_file t st in
    let m = store64 (store64 st.mem st.current_ino bs) (file + 40) st.current_ino in
    let ino = inode_at t st.iindex in
    record st {
      mem = store32 m (ino + 24) file_size;
      current_ino = ino;
      iindex = (st.iindex + 1) % 256;
    }

-- `(x + 3) / 4 * 4` of an `int64_t` that is -1 or small
abbrev pub padded : ℕ → ℕ
padded x = (x + 3) % 2 ^ 64 / 4 * 4

-- Behind the parent: the data, and the next header. `file_size > 0` is a test of an `int64_t`.
unfoldable pub advance : (file_size filename_size : ℕ) (is_regular : Bool) → Layout → Scan → Scan
advance file_size filename_size is_regular t st =
    let bs = padded (110 + filename_size) + st.file_start in
    let has_data = ltb 0 file_size && ltb file_size (2 ^ 63) && is_regular in
    let st' = if has_data then place_data file_size bs t st else st in
    record st' { file_start = (bs + padded file_size) % 2 ^ 64; findex = (st.findex + 1) % 256 }

-- A round that goes on, or a return: the address for `*bytestream_end` with 0, or none with -1.
pub data Outcome : Type 0 where
  next : Scan → Outcome
  return : Option ℕ → Mem → Outcome

-- Behind the `switch`: name, parent, data.
unfoldable pub finish_entry :
    (fuel file_size filename_size : ℕ) (is_regular : Bool) → Layout → Scan → Option Outcome
finish_entry fuel file_size filename_size is_regular t st =
    let file = current_file t st in
    let cleared = clear_names 16 0 file t.parent_filename st.mem in
    elim (parse_name fuel 0 (st.file_start + 110) file t.parent_filename cleared) [
      | none ↦ none
      | some named ↦ elim (save_parent fuel file t (store64 named (file + 32) 0)) [
        | none ↦ none
        | some linked ↦
            some (next (advance file_size filename_size is_regular t (record st { mem = linked })))
      ]
    ]

-- `switch (filetype)`
unfoldable pub enter :
    (fuel file_size filename_size : ℕ) → FileType → Layout → Scan → Option Outcome
enter fuel size name_size FileType.invalid t st =
    some (return none (store32 st.mem (current_file t st + 24) 0))
enter fuel size name_size FileType.directory t st =
    finish_entry fuel size name_size false t
      (record st { mem = enter_directory (current_file t st) st.mem })
enter fuel size name_size FileType.regular t st =
    finish_entry fuel size name_size true t (enter_regular size t st)

-- One round of the `while(1)`
unfoldable pub scan_entry : (fuel : ℕ) → Layout → Scan → Option Outcome
scan_entry fuel t st =
    let s = st.file_start in
    let m = st.mem in
    let file_size = int_from_string (s + 54) 8 m in
    let filename_size = int_from_string (s + 94) 8 m in
    if not (check_magic s m)
    then some (return none m)
    else if check_end_archive (s + 110) m
    then some (return (some (s + 110)) m)
    else enter fuel file_size filename_size (get_file_type (s + 18) m) t st

unfoldable pub scan_entries : (rounds fuel : ℕ) → Layout → Scan → Option (Option ℕ × Mem)
scan_entries zero fuel t st = none
scan_entries (suc rounds) fuel t st = elim (scan_entry fuel t st) [
  | none ↦ none
  | some (return end m) ↦ some (end, m)
  | some (next st') ↦ scan_entries rounds fuel t st'
]

-- `init_ramfs` with the archive at `ramfs_start`; `none` if a loop runs out of fuel.
unfoldable pub init_ramfs : (rounds fuel ramfs_start : ℕ) → Layout → Mem → Option (Option ℕ × Mem)
init_ramfs rounds fuel ramfs_start t m = scan_entries rounds fuel t (record {
  findex = 0;
  iindex = 0;
  current_ino = inode_at t 0;
  file_start = ramfs_start;
  mem = m;
})
