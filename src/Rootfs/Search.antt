-- ===== src/Rootfs/Search.antt =====
-- kernel/rootfs.c's `search_file`, and `read` on top of it.
use skinny_arm.Base.{
  ℕ, zero, suc, ◌+◌, ◌≤◌, ◌<◌, ◌≡◌, ◌≢◌, refl, sym, ap, subst, true, false, inl, inr, Bool-cases,
  some, arith, ◌==◌, ==→eq, ==→ne,
}
use skinny_arm.Memory.{Mem}
use skinny_arm.Str.{IsString, strequal, strequal_lem}
use skinny_arm.Rootfs.{file_at, search_loop, search_file, data_size_of, read}

-- A table of 256 files with names that end, `len i` being the length of name `i`, each of which
-- `strequal` can read with this fuel.
pub record IsTable (fuel files : ℕ) (m : Mem) (len : ℕ → ℕ) : Type 0 where
  pub names : (i : ℕ) → i < 256 → IsString m (file_at files i) (len i)
  pub enough : (i : ℕ) → i < 256 → len i < fuel

-- The name of file `i`, without its end, stands at the start of `name`.
abbrev pub Starts : (m : Mem) (files name : ℕ) (len : ℕ → ℕ) (i : ℕ) → Type 0
Starts m files name len i = (j : ℕ) → j < len i → m (file_at files i + j) ≡ m (name + j)

-- A character of the name of file `i` is not that of `name`.
abbrev pub Differs : (m : Mem) (files name : ℕ) (len : ℕ → ℕ) (i : ℕ) → Type 0
Differs m files name len i = (j : ℕ) × (j < len i) × (m (file_at files i + j) ≢ m (name + j))

module _ (fuel name files : ℕ) (m : Mem) (len : ℕ → ℕ) (table : IsTable fuel files m len) where
  starts :
      (i : ℕ)
      → i < 256
      → Starts m files name len i
      → strequal fuel (file_at files i) name m ≡ some true
  starts i h s =
      (strequal_lem (len i) fuel (file_at files i) name m (table.names i h) (table.enough i h)).0 s

  differs :
      (i : ℕ)
      → i < 256
      → Differs m files name len i
      → strequal fuel (file_at files i) name m ≡ some false
  differs i h (j, lt, ne) =
      (strequal_lem (len i) fuel (file_at files i) name m (table.names i h) (table.enough i h)).1 j
        lt ne

  search_loop-first :
      (n i f : ℕ)
      → i + n ≡ 256
      → i ≤ f
      → f < 256
      → Starts m files name len f
      → ((j : ℕ) → j < f → Differs m files name len j)
      → search_loop n i fuel name files m ≡ some (true, file_at files f)
  unfolding search_loop
  search_loop-first zero i f total le lt here before = absurd (omega arith)
  search_loop-first (suc n) i f total le lt here before = elim (Bool-cases (i == f)) [
    | inl same ↦
        let e = ==→eq i f same in
        let own = starts i (omega arith) (subst (Starts m files name len) (sym e) here) in
        rw (own, search_loop) (ap (λ j. some (true, file_at files j)) e)
    | inr other ↦
        let below : i < f = omega (arith, ==→ne i f other) in
        rw (differs i (omega arith) (before i below), search_loop)
          (search_loop-first n (i + 1) f (omega arith) (omega arith) lt here before)
  ]

  search_loop-none :
      (n i : ℕ)
      → i + n ≡ 256
      → ((j : ℕ) → j < 256 → Differs m files name len j)
      → search_loop n i fuel name files m ≡ some (false, 0)
  unfolding search_loop
  search_loop-none zero i total all = refl
  search_loop-none (suc n) i total all =
      rw (differs i (omega arith) (all i (omega arith)), search_loop)
        (search_loop-none n (i + 1) (omega arith) all)

  -- In a table of names that end, with more fuel than each name has characters, `search_file` finds
  -- the first file whose name stands at the start of the name that is asked for, as an empty name
  -- does; if there is none it returns 0 and NULL.
  pub search_file_lem :
      ((f : ℕ)
        → f < 256
        → Starts m files name len f
        → ((j : ℕ) → j < f → Differs m files name len j)
        → search_file fuel name files m ≡ some (true, file_at files f))
      × (((j : ℕ) → j < 256 → Differs m files name len j)
          → search_file fuel name files m ≡ some (false, 0))
  unfolding search_file
  search_file_lem = (
    λ f lt here before. search_loop-first 256 0 f refl (omega arith) lt here before,
    λ all. search_loop-none 256 0 refl all,
  )

  -- In a table of names that end, with more fuel than each name has characters, `read` returns 0 if
  -- the search finds a file whose data has at least as many bytes as the offset says, -1 if it has
  -- fewer, and -1 if no name stands at the start of the one asked for.
  read_lem :
      (offset : ℕ)
      → ((f : ℕ)
          → f < 256
          → Starts m files name len f
          → ((j : ℕ) → j < f → Differs m files name len j)
          → (offset ≤ data_size_of m (file_at files f) → read fuel name offset files m ≡ some true)
            × (data_size_of m (file_at files f) < offset
                → read fuel name offset files m ≡ some false))
        × (((j : ℕ) → j < 256 → Differs m files name len j)
            → read fuel name offset files m ≡ some false)
  unfolding read
  read_lem offset = (
    λ f lt here before.
        let found = search_file_lem.0 f lt here before in
        (λ le. rw (found, read) (ground arith), λ gt. rw (found, read) (ground arith)),
    λ all. rw (search_file_lem.1 all, read) refl,
  )
