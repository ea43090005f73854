-- ===== src/Rootfs/Header.antt =====
-- The marks of a cpio header that kernel/rootfs.c looks for.
use skinny_arm.Base.{
  ℕ, zero, suc, ◌+◌, ◌<◌, ◌≡◌, ◌≢◌, refl, sym, ap, subst, ◌∙◌, Bool, true, false, inl, inr,
  Bool-cases, List, [], ◌∷◌, length, get_or, arith, ◌==◌, ==→eq, eq→==, ne→==,
}
use skinny_arm.Memory.{Mem}
use skinny_arm.Rootfs.{
  FileType, matched, get_file_type, check_bytes, check_magic, check_end_archive,
}

-- The bytes `cs` stand at `p`.
abbrev pub Holds : Mem → (p : ℕ) → List ℕ → Type 0
Holds m p [] = Unit
Holds m p (c ∷ cs) = (m p ≡ c) × Holds m (p + 1) cs

check_bytes-Holds : (cs : List ℕ) (p : ℕ) (m : Mem) → Holds m p cs → check_bytes cs p m ≡ true
unfolding check_bytes
check_bytes-Holds [] p m h = refl
check_bytes-Holds (c ∷ cs) p m h = ground (arith, h.0, check_bytes-Holds cs (p + 1) m h.1)

Holds-check_bytes : (cs : List ℕ) (p : ℕ) (m : Mem) → check_bytes cs p m ≡ true → Holds m p cs
unfolding check_bytes
Holds-check_bytes [] p m h = tt
Holds-check_bytes (c ∷ cs) p m h = elim (Bool-cases (m p == c)) [
  | inl same ↦ (==→eq (m p) c same, Holds-check_bytes cs (p + 1) m (ground (arith, same, h)))
  | inr other ↦ absurd (ground (arith, other, h))
]

matched-Holds :
    (cs : List ℕ) (i arr : ℕ) (m : Mem) → Holds m (arr + i) cs → matched cs i arr m ≡ i + length cs
unfolding matched
matched-Holds [] i arr m h = omega arith
matched-Holds (c ∷ cs) i arr m h =
    let shifted : Holds m (arr + (i + 1)) cs = subst (λ p. Holds m p cs) (omega arith) h.1 in
    ground (arith, h.0, matched-Holds cs (i + 1) arr m shifted)

Holds-matched :
    (cs : List ℕ) (i arr : ℕ) (m : Mem) → matched cs i arr m ≡ i + length cs → Holds m (arr + i) cs
unfolding matched
Holds-matched [] i arr m h = tt
Holds-matched (c ∷ cs) i arr m h = elim (Bool-cases (m (arr + i) == c)) [
  | inl same ↦ (
    ==→eq (m (arr + i)) c same,
    subst (λ p. Holds m p cs) (omega arith)
        (Holds-matched cs (i + 1) arr m (ground (arith, same, h))),
  )
  | inr other ↦ absurd (ground (arith, other, h))
]

-- The two marks of the format: `070701`, and `TRAILER!!!`.
abbrev pub newc_mark : List ℕ
newc_mark = 48 ∷ 55 ∷ 48 ∷ 55 ∷ 48 ∷ 49 ∷ []

abbrev pub trailer_mark : List ℕ
trailer_mark = 84 ∷ 82 ∷ 65 ∷ 73 ∷ 76 ∷ 69 ∷ 82 ∷ 33 ∷ 33 ∷ 33 ∷ []

-- The modes of a file with rights 0644 and of a directory with rights 0755: `81A4` and `41ED`.
abbrev pub file_mode : List ℕ
file_mode = 56 ∷ 49 ∷ 65 ∷ 52 ∷ []

abbrev pub dir_mode : List ℕ
dir_mode = 52 ∷ 49 ∷ 69 ∷ 68 ∷ []

pub check_marks-Holds :
    (p : ℕ) (m : Mem)
    → (Holds m p newc_mark → check_magic p m ≡ true)
      × (Holds m p trailer_mark → check_end_archive p m ≡ true)
      × (check_end_archive p m ≡ true → Holds m p trailer_mark)
unfolding check_magic check_end_archive
check_marks-Holds p m = (
  check_bytes-Holds newc_mark p m,
  check_bytes-Holds trailer_mark p m,
  Holds-check_bytes trailer_mark p m,
)

-- At each place of `cs` memory has the byte of `cs`, counted from `p`.
abbrev pub Stands : Mem → (p : ℕ) → List ℕ → Type 0
Stands m p cs = (i : ℕ) → i < length cs → m (p + i) ≡ get_or cs i 0

-- At some place of `cs` memory has another byte.
abbrev pub Departs : Mem → (p : ℕ) → List ℕ → Type 0
Departs m p cs = (i : ℕ) × (i < length cs) × (m (p + i) ≢ get_or cs i 0)

Holds-Stands : (cs : List ℕ) (p : ℕ) (m : Mem) → Stands m p cs → Holds m p cs
Holds-Stands [] p m h = tt
Holds-Stands (c ∷ cs) p m h =
    let here : p + 0 ≡ p = omega arith in
    (
      sym (ap m here) ∙ h 0 (omega arith),
      Holds-Stands cs (p + 1) m
          λ i lt. let e : p + 1 + i ≡ p + suc i = omega arith in ap m e ∙ h (suc i) (omega arith),
    )

Stands-Holds : (cs : List ℕ) (p : ℕ) (m : Mem) → Holds m p cs → Stands m p cs
Stands-Holds [] p m h i lt = absurd (omega arith)
Stands-Holds (c ∷ cs) p m h zero lt = let here : p + 0 ≡ p = omega arith in ap m here ∙ h.0
Stands-Holds (c ∷ cs) p m h (suc i) lt =
    let e : p + suc i ≡ p + 1 + i = omega arith in
    ap m e ∙ Stands-Holds cs (p + 1) m h.1 i (omega arith)

check_bytes-Departs : (cs : List ℕ) (p : ℕ) (m : Mem) → check_bytes cs p m ≡ false → Departs m p cs
unfolding check_bytes
check_bytes-Departs [] p m h = absurd (cc h)
check_bytes-Departs (c ∷ cs) p m h = elim (Bool-cases (m p == c)) [
  | inl same ↦
      (let (i, lt, ne) = check_bytes-Departs cs (p + 1) m (ground (arith, same, h)) in
        let e : p + 1 + i ≡ p + suc i = omega arith in (suc i, omega arith, λ z. ne (ap m e ∙ z)))
  | inr other ↦
      (let here : p + 0 ≡ p = omega arith in
        (0, omega arith, λ z. cc (other, eq→== (m p) c (sym (ap m here) ∙ z))))
]

-- What the comparison with the bytes `cs` decides.
abbrev pub Decides : (check : Bool) → Mem → (p : ℕ) → List ℕ → Type 0
Decides check m p cs =
    (Stands m p cs → check ≡ true)
    × (check ≡ true → Stands m p cs)
    × (check ≡ false → Departs m p cs)

check_bytes-Decides : (cs : List ℕ) (p : ℕ) (m : Mem) → Decides (check_bytes cs p m) m p cs
check_bytes-Decides cs p m = (
  λ h. check_bytes-Holds cs p m (Holds-Stands cs p m h),
  λ h. Stands-Holds cs p m (Holds-check_bytes cs p m h),
  check_bytes-Departs cs p m,
)

-- `check_magic` returns 0 exactly if the six bytes from `byte_stream` on are those of `070701`, and
-- `check_end_archive` returns 1 exactly if the ten bytes from there on are those of `TRAILER!!!`. Where
-- one of them finds something else, one of its six or ten bytes differs.
pub check_marks_lem :
    (byte_stream : ℕ) (m : Mem)
    → Decides (check_magic byte_stream m) m byte_stream (48 ∷ 55 ∷ 48 ∷ 55 ∷ 48 ∷ 49 ∷ [])
      × Decides
          (check_end_archive byte_stream m)
          m
          byte_stream
          (84 ∷ 82 ∷ 65 ∷ 73 ∷ 76 ∷ 69 ∷ 82 ∷ 33 ∷ 33 ∷ 33 ∷ [])
unfolding check_magic check_end_archive
check_marks_lem byte_stream m =
    (check_bytes-Decides newc_mark byte_stream m, check_bytes-Decides trailer_mark byte_stream m)

-- `get_file_type` is regular where the four bytes are `81A4`, directory where they are `41ED`, and
-- invalid at all others, those of other access rights included.
pub get_file_type_lem :
    (arr : ℕ) (m : Mem)
    → (Holds m arr file_mode → get_file_type arr m ≡ FileType.regular)
      × (Holds m arr dir_mode → get_file_type arr m ≡ FileType.directory)
      × (¬ Holds m arr file_mode → ¬ Holds m arr dir_mode → get_file_type arr m ≡ FileType.invalid)
unfolding get_file_type
get_file_type_lem arr m = (
  λ is. rw (matched_at file_mode is),
  λ is. rw (missed file_mode (λ file. omega (arith, file.0, is.0)), matched_at dir_mode is),
  λ no_file no_dir. rw (missed file_mode no_file, missed dir_mode no_dir),
)
  where
    start : arr + 0 ≡ arr
    start = omega arith

    matched_at : (cs : List ℕ) → Holds m arr cs → matched cs 0 arr m ≡ 0 + length cs
    matched_at cs is = matched-Holds cs 0 arr m (subst (λ p. Holds m p cs) (omega arith) is)

    missed : (cs : List ℕ) → ¬ Holds m arr cs → (matched cs 0 arr m == 0 + length cs) ≡ false
    missed cs lacks =
        ne→== (matched cs 0 arr m) (0 + length cs)
          λ e. lacks (subst (λ p. Holds m p cs) start (Holds-matched cs 0 arr m e))
