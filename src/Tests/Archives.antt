-- ===== src/Tests/Archives.antt =====
-- An archive of a file `a`, which holds the two bytes `hi`, and a directory `d`.
use skinny_arm.Base.{
  ℕ, ◌+◌, ◌-◌, ◌≡◌, refl, true, false, some, none, List, [], ◌∷◌, ◌++◌, get_or, arith, leb,
  if◌then◌else◌, inl,
}
use skinny_arm.Memory.{Mem}
use skinny_arm.Kalloc.{Kernel, kalloc_init}
use skinny_arm.Overlap.{init_ramfs-kalloc_init}
use skinny_arm.Rootfs.{check_magic, check_bytes}
use skinny_arm.Rootfs.Header.{newc_mark, trailer_mark, file_mode, dir_mode}
use skinny_arm.Rootfs.Ramfs.{Layout, init_ramfs}
use skinny_arm.Rootfs.Ramfs.Archive.{Entry, IsEntry, IsArchive, SameFrom}
use skinny_arm.Rootfs.Ramfs.Round.{IsLayout}
use skinny_arm.Rootfs.Ramfs.Table.{AllFiles, init_ramfs-AllFiles}

-- Eight digits 0
abbrev zeros : List ℕ
zeros = 48 ∷ 48 ∷ 48 ∷ 48 ∷ 48 ∷ 48 ∷ 48 ∷ 48 ∷ []

-- One digit behind seven zeros
abbrev digit : ℕ → List ℕ
digit d = 48 ∷ 48 ∷ 48 ∷ 48 ∷ 48 ∷ 48 ∷ 48 ∷ (48 + d) ∷ []

abbrev header : (ident : List ℕ) (size name_size : ℕ) → List ℕ
header ident size name_size =
    newc_mark
    ++ (zeros
        ++ ((48 ∷ 48 ∷ 48 ∷ 48 ∷ [])
            ++ (ident
                ++ (zeros
                    ++ (zeros
                        ++ (zeros
                            ++ (zeros
                                ++ (digit size
                                    ++ (zeros
                                        ++ (zeros
                                            ++ (zeros
                                                ++ (zeros ++ (digit name_size ++ zeros)))))))))))))

abbrev archive : List ℕ
archive =
    header file_mode 2 2
    ++ ((97 ∷ 0 ∷ 104 ∷ 105 ∷ 0 ∷ 0 ∷ [])
        ++ (header dir_mode 0 2 ++ ((100 ∷ 0 ∷ []) ++ (header dir_mode 0 0 ++ trailer_mark))))

abbrev disk : Mem
disk x = if leb 0x10000 x then get_or archive (x - 0x10000) 0 else 0

abbrev tables : Layout
tables = record { files = 0x1000; inodes = 0x4000; parent_filename = 0x6000 }

tables-IsLayout : IsLayout tables 0x10000
tables-IsLayout = record {
  files_end = omega arith;
  inodes_end = omega arith;
  parent_end = omega arith;
  small = omega arith;
  files_inodes = inl (omega arith);
  files_parent = inl (omega arith);
  inodes_parent = inl (omega arith);
}

abbrev a_file : Entry
a_file = record { is_regular = true; name = 97 ∷ []; file_size = 2 }

abbrev d_directory : Entry
d_directory = record { is_regular = false; name = 100 ∷ []; file_size = 0 }

a_file-IsEntry : IsEntry disk 0x10000 a_file
a_file-IsEntry = record {
  marked = omega arith;
  mode = omega arith;
  sized = omega arith;
  name_sized = omega arith;
  named = omega arith;
  flat = omega arith;
  bytes = omega arith;
  short = omega arith;
  small = omega arith;
  no_end = λ h. omega (arith, h.0);
}

d_directory-IsEntry : IsEntry disk 0x10074 d_directory
d_directory-IsEntry = record {
  marked = omega arith;
  mode = omega arith;
  sized = omega arith;
  name_sized = omega arith;
  named = omega arith;
  flat = omega arith;
  bytes = omega arith;
  short = omega arith;
  small = omega arith;
  no_end = λ h. omega (arith, h.0);
}

disk-IsArchive : IsArchive disk 0x10000 (a_file ∷ d_directory ∷ []) 0x10152
disk-IsArchive = (
  a_file-IsEntry,
  omega arith,
  (d_directory-IsEntry, omega arith, (omega arith, omega arith, refl)),
)

init_ramfs-AllFiles_example :
    (n : Mem) × (init_ramfs 3 16 0x10000 tables disk ≡ some (some 0x10152, n))
    × AllFiles n tables 0 0x10000 (a_file ∷ d_directory ∷ [])
    × SameFrom 0x10000 disk n
init_ramfs-AllFiles_example =
    init_ramfs-AllFiles tables-IsLayout 16 (omega arith) (a_file ∷ d_directory ∷ []) 3 0x10000
      0x10152 disk (omega arith) (omega arith) (omega arith) (omega arith) disk-IsArchive

-- The archive where it is loaded, before the kernel starts.
abbrev loaded : Kernel
loaded = record {
  mem = λ x. if leb 0x8000000 x then get_or archive (x - 0x8000000) 0 else 0;
  page_frame_linked_list = 0;
}

loaded_is_marked : check_magic 0x8000000 loaded.mem ≡ true
unfolding check_magic check_bytes
loaded_is_marked = refl

-- The kernel's own end of memory, with the image ending at 0x90000.
init_ramfs-kalloc_init_example :
    (k' : Kernel) × (kalloc_init 0x90000 0x3f000000 loaded ≡ some k')
    × (init_ramfs 1 16 0x8000000 tables k'.mem ≡ some (none, k'.mem))
init_ramfs-kalloc_init_example =
    init_ramfs-kalloc_init 0 16 0x90000 0x3f000000 loaded tables (omega arith) refl (omega arith)
      (omega arith) (omega arith) (omega arith)
