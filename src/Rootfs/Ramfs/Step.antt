-- ===== src/Rootfs/Ramfs/Step.antt =====
-- A whole round of kernel/rootfs.c's `init_ramfs`: header, `switch`, name and data.
use skinny_arm.Base.{
  ℕ, ◌+◌, ◌%◌, ◌^◌, ◌≤◌, ◌<◌, ◌≡◌, ◌≢◌, inl, inr, refl, ap, sym, subst, ◌∙◌, Bool, true, false,
  Bool-cases, some, [], ◌∷◌, ◌++◌, length, arith, ◌==◌, ne→==, ==→eq, ==→ne,
}
use skinny_arm.Memory.{Mem, load64_ext}
use skinny_arm.Rootfs.Header.{Holds}
use skinny_arm.Rootfs.Ramfs.{
  Layout, inode_at, Scan, current_file, enter_directory, enter_regular, Outcome, finish_entry,
  enter, scan_entry,
}
use skinny_arm.Rootfs.Ramfs.Archive.{Entry, IsEntry, behind, Holds-from, Holds-ext}
use skinny_arm.Rootfs.Ramfs.Name.{IsLinked, length-snoc}
use skinny_arm.Rootfs.Ramfs.Switch.{
  kind_bytes, Keeps, IsSwitched, directory-IsSwitched, enter_regular-empty, enter_regular-data,
  IsPlaced, place_data-IsPlaced,
}
use skinny_arm.Rootfs.Ramfs.Moves.{type_of, scan_entry-enter, advance-plain, advance-data}
use skinny_arm.Rootfs.Ramfs.Round.{
  IsLayout, has_data, data_at, IsFile, file_inodes, Keeps-Frame, IsLinked-Frame, Frame-trans,
  IsRound, linked-kind, finish_entry-IsLinked,
}

module _ {t : Layout} {base : ℕ} (ok : IsLayout t base) (st : Scan) (lf : st.findex < 256)
    (e : Entry) (above : base ≤ st.file_start) (is : IsEntry st.mem st.file_start e)
    (fits : behind st.file_start e < 2 ^ 64) (fuel : ℕ) (enough : 16 ≤ fuel) (few : st.iindex ≤ 256)
    (inode : (c : ℕ) × (c < 256) × (st.current_ino ≡ inode_at t c)) where
  abbrev own : ℕ
  own = current_file t st

  -- The name is still in the archive behind the `switch`.
  name_kept :
      {k : ℕ} {n : Mem} → Keeps t own k st.mem n → Holds n (st.file_start + 110) (e.name ++ 0 ∷ [])
  name_kept {k} {n} keeps =
      Holds-from base st.mem n
        (λ x le. keeps.outside x (ground (arith, ok.files_end)) (ground (arith, ok.inodes_end)))
        (st.file_start + 110) (e.name ++ 0 ∷ []) (omega arith) is.named

  -- What the `switch` leaves, and that the round goes on with it.
  abbrev Switched : Mem → Type 0
  Switched n = IsSwitched t own st.iindex (file_inodes ok st.findex lf) few e.is_regular st.mem n

  abbrev Moves : Type 0
  Moves =
      (st' : Scan) × (scan_entry fuel t st ≡ some (Outcome.next st'))
      × IsRound ok st.findex lf st e st'

  plain-IsRound :
      (n : Mem)
      → has_data e ≡ false
      → enter fuel e.file_size (length e.name + 1) (type_of e.is_regular) t st
        ≡ finish_entry fuel e.file_size (length e.name + 1) e.is_regular t (record st { mem = n })
      → Switched n
      → Moves
  plain-IsRound n plain entered sw =
      let (m, fin, linked) =
        finish_entry-IsLinked ok (record st { mem = n }) lf fuel e.file_size (length e.name + 1)
          e.is_regular e.name above enough is.short is.flat is.bytes (name_kept sw.keeps) in
      (
        record st {
          mem = m;
          file_start = behind st.file_start e % 2 ^ 64;
          findex = (st.findex + 1) % 256;
        },
        scan_entry-enter fuel t st e is
            ∙ entered
            ∙ fin
            ∙ ap (λ s. some (Outcome.next s))
                (advance-plain e.file_size (length e.name + 1) e.is_regular t
                  (record st { mem = m }) (omega (arith, is.short)) is.small plain),
        record {
          findex = refl;
          start = omega arith;
          iindex = rw plain refl;
          inode = inode;
          frame =
              Frame-trans ok st.findex lf (Keeps-Frame ok st.findex lf sw.keeps)
                (IsLinked-Frame ok st.findex lf few linked);
          entered = record {
            name = linked.name;
            kind = linked-kind ok st.findex lf e.is_regular sw.kind linked;
            last = linked.last;
            content = λ has. cc;
          };
        },
      )

  -- A file with data, in the inode behind the one that its numbers go to.
  module _ (room : st.iindex + 2 < 256) (regular : e.is_regular ≡ true)
      (some_data : e.file_size ≢ 0) where
    abbrev fresh : ℕ
    fresh = (st.iindex + 1) % 256

    abbrev entered_state : Mem → Scan
    entered_state n = record st { mem = n; iindex = fresh; current_ino = inode_at t fresh }

    data-IsFile :
        {n m o : Mem}
        → Switched n
        → IsLinked n own t.parent_filename e.name m
        → IsPlaced t own st.iindex
            (file_inodes ok st.findex lf)
            few
            fresh
            (data_at st.file_start e)
            e.file_size
            m
            o
        → IsFile o t own st.file_start e (st.iindex + 2)
    data-IsFile {n} {m} {o} sw linked placed = record {
      name =
          Holds-ext m o own (e.name ++ 0 ∷ [])
            (λ x lo hi. placed.head x lo (omega (arith, length-snoc e.name 0, is.short)))
            linked.name;
      kind =
          Holds-ext m o (own + 24) (kind_bytes e.is_regular)
            (λ x lo hi. placed.head x (omega arith) (omega (arith, kind_size e.is_regular)))
            (linked-kind ok st.findex lf e.is_regular sw.kind linked);
      last =
          load64_ext o m (own + 32) (λ x lo hi. placed.head x (omega arith) (omega arith))
          ∙ linked.last;
      content = λ has. record {
        index = fresh;
        below = omega arith;
        ino = placed.ino;
        placed = placed.place;
        size_of = placed.size_of;
      };
    }
      where
        kind_size : (r : Bool) → length (kind_bytes r) ≡ 4
        kind_size true = refl
        kind_size false = refl

    data-IsRound :
        (n : Mem)
        → enter fuel e.file_size (length e.name + 1) (type_of e.is_regular) t st
          ≡ finish_entry fuel e.file_size (length e.name + 1) true t (entered_state n)
        → Switched n
        → Moves
    data-IsRound n entered sw =
        let (m, fin, linked) =
          finish_entry-IsLinked ok (entered_state n) lf fuel e.file_size (length e.name + 1) true
            e.name above enough is.short is.flat is.bytes (name_kept sw.keeps) in
        let (o, put, placed) =
          place_data-IsPlaced t own st.iindex (file_inodes ok st.findex lf) few fresh
            (data_at st.file_start e) e.file_size m (omega arith) (omega arith)
            (record (entered_state n) { mem = m }) refl refl refl refl
            (omega (arith, ok.inodes_end, ok.small)) (omega arith) is.small in
        (
          record st {
            mem = o;
            iindex = (fresh + 1) % 256;
            current_ino = inode_at t fresh;
            file_start = behind st.file_start e % 2 ^ 64;
            findex = (st.findex + 1) % 256;
          },
          scan_entry-enter fuel t st e is
              ∙ entered
              ∙ fin
              ∙ ap (λ s. some (Outcome.next s))
                  (advance-data e.file_size (length e.name + 1) t
                      (record (entered_state n) { mem = m }) some_data (omega (arith, is.short))
                      is.small
                    ∙ ap
                        (λ (s : Scan). record s {
                          file_start = behind st.file_start e % 2 ^ 64;
                          findex = (s.findex + 1) % 256;
                        })
                        put),
          record {
            findex = refl;
            start = omega arith;
            iindex = rw (regular, ne→== e.file_size 0 some_data) (omega arith);
            inode = (fresh, omega arith, refl);
            frame =
                Frame-trans ok st.findex lf
                  (Frame-trans ok st.findex lf (Keeps-Frame ok st.findex lf sw.keeps)
                    (IsLinked-Frame ok st.findex lf few linked))
                  (Keeps-Frame ok st.findex lf placed.keeps);
            entered =
                subst (IsFile o t own st.file_start e) (omega arith) (data-IsFile sw linked placed);
          },
        )

  -- The `case REGULAR`, from what it makes of the state.
  enter-regular :
      (st' : Scan)
      → e.is_regular ≡ true
      → enter_regular e.file_size t st ≡ st'
      → enter fuel e.file_size (length e.name + 1) (type_of e.is_regular) t st
        ≡ finish_entry fuel e.file_size (length e.name + 1) true t st'
  unfolding enter
  enter-regular st' regular run =
      ap (λ r. enter fuel e.file_size (length e.name + 1) (type_of r) t st) regular
      ∙ ap (finish_entry fuel e.file_size (length e.name + 1) true t) run

  switched :
      {n : Mem}
      → e.is_regular ≡ true
      → IsSwitched t own st.iindex (file_inodes ok st.findex lf) few true st.mem n
      → Switched n
  switched {n} regular sw =
      subst (λ r. IsSwitched t own st.iindex (file_inodes ok st.findex lf) few r st.mem n)
        (sym regular) sw

  -- A round over an entry, whichever it is.
  pub scan_entry-IsRound : (has_data e ≡ true → st.iindex + 2 < 256) → Moves
  unfolding enter
  scan_entry-IsRound room = elim (Bool-cases e.is_regular) [
    | inr dir ↦
        plain-IsRound (enter_directory own st.mem) (rw dir refl) (rw dir refl)
          (rw dir (directory-IsSwitched t own st.iindex (file_inodes ok st.findex lf) few st.mem))
    | inl regular ↦ elim (Bool-cases (e.file_size == 0)) [
      | inl zero_size ↦
          let (n, run, sw) =
            enter_regular-empty t own st.iindex (file_inodes ok st.findex lf) few st refl in
          let run' = ap (λ s. enter_regular s t st) (==→eq e.file_size 0 zero_size) ∙ run in
          plain-IsRound n (rw (regular, zero_size) refl)
            (enter-regular (record st { mem = n }) regular run'
              ∙ ap
                  (λ r.
                    finish_entry fuel e.file_size (length e.name + 1) r t (record st { mem = n }))
                  (sym regular))
            (switched regular sw)
      | inr nonzero ↦
          let some_data = ==→ne e.file_size 0 nonzero in
          let (n, run, sw) =
            enter_regular-data t own st.iindex (file_inodes ok st.findex lf) few st refl e.file_size
              inode.0 some_data inode.2 inode.1 in
          let has : has_data e ≡ true = rw (regular, nonzero) refl in
          data-IsRound (room has) regular some_data n (enter-regular _ regular run)
            (switched regular sw)
    ]
  ]
