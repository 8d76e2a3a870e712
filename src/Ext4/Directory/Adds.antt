-- ===== src/Ext4/Directory/Adds.antt =====
-- `add_entry` on the bytes of a directory: the new name is found, and no other name is lost.
use nwin_os.Common.{
  ℕ, suc, ◌+◌, ◌-◌, ◌≤◌, ◌<◌, ◌≡◌, refl, sym, ap, ap₂, ◌∙◌, true, false, some, List, [], ◌∷◌, ◌++◌,
  append_assoc, append-nil, take, drop, length, ltb, ◌==◌, Bool-cases, inl, inr, arith,
}
use native.Mathlib.Nat.{mod-eq_of_lt}
use nwin_os.Common.Dict.{same, same_refl}
use nwin_os.Common.Outcome.{returned, ok}
use nwin_os.Common.Utf8.{from_utf8}
use nwin_os.Ext4.{Ext4Inode, le}
use nwin_os.Ext4.Device.{BlockDevice}
use nwin_os.Ext4.Directory.{
  DirRecord, rec_len, record_bytes, block_bytes, FitsRecord, AreRecords, length-record_bytes,
  header_of,
}
use nwin_os.Ext4.Directory.Walks.{header-here, find_last-finds, found_among}
use nwin_os.Ext4.Node.{
  node_of, byte_of, header_at, aligned, entry_bytes, split_last, with_entry, is_utf8, is_named,
}
use nwin_os.Ext4.Slices.{overwrite-append, length-take_eq, length-drop_add, take_then_drop}
use nwin_os.Ext4.Volume.{Ext4Volume, read_inode, overwrite}

zero_add : (n : ℕ) → 0 + n ≡ n
zero_add n = omega arith

-- The last record after it gave up its padding, and the record that got it.
module _ (last : DirRecord) (name : List ℕ) (ino : ℕ) where
  abbrev pub last_len : ℕ
  last_len = aligned (8 + length last.name)

  abbrev pub kept_padding : ℕ
  kept_padding = last_len - (8 + length last.name)

  abbrev pub shortened : DirRecord
  shortened = record last { padding = take kept_padding last.padding }

  abbrev pub space_left : ℕ
  space_left = rec_len last - last_len

  abbrev pub added : DirRecord
  added = record {
    inode = ino;
    file_type = 1;
    name = name;
    padding = drop (8 + length name) (drop kept_padding last.padding);
  }

  -- The block with the entry.
  abbrev pub linked_bytes : List DirRecord → List ℕ
  linked_bytes rs = block_bytes rs ++ (record_bytes shortened ++ record_bytes added)

  module _ (room : last_len + aligned (8 + length name) ≤ rec_len last)
      (short : length name < 256) where
    pub rec_len-shortened : rec_len shortened ≡ last_len
    rec_len-shortened =
        omega (arith, room, length-take_eq kept_padding last.padding (omega (arith, room)))

    length-given : length (drop kept_padding last.padding) ≡ space_left
    length-given =
        omega (arith, room, length-drop_add kept_padding last.padding (omega (arith, room)))

    pub rec_len-added : rec_len added ≡ space_left
    rec_len-added = omega (
      arith,
      room,
      length-given,
      length-drop_add (8 + length name) (drop kept_padding last.padding)
          (omega (arith, room, length-given)),
    )

    -- The record with its new length, taken apart where the new one begins.
    relabelled :
        overwrite (record_bytes last) 4 (le 2 last_len)
        ≡ record_bytes shortened ++ drop kept_padding last.padding
    relabelled =
        ap₂ (λ n z. le 4 last.inode ++ (le 2 n ++ (length last.name ∷ last.file_type ∷ z)))
          (sym rec_len-shortened)
          (ap (λ z. last.name ++ z) (sym (take_then_drop kept_padding last.padding))
            ∙ sym (
                append_assoc last.name (take kept_padding last.padding)
                  (drop kept_padding last.padding)))

    entered :
        overwrite (drop kept_padding last.padding) 0 (entry_bytes ino space_left name)
        ≡ record_bytes added
    entered =
        ap₂ (λ n z. le 4 ino ++ (le 2 n ++ z)) (sym rec_len-added)
          (ap₂ (λ n m. n ∷ 1 ∷ (name ++ drop m (drop kept_padding last.padding)))
            (mod-eq_of_lt short) (omega arith))

    split_bytes :
        (p : List ℕ)
        → overwrite
            (overwrite (p ++ record_bytes last) (length p + 4) (le 2 last_len))
            (length p + last_len)
            (entry_bytes ino space_left name)
          ≡ p ++ (record_bytes shortened ++ record_bytes added)
    split_bytes p =
        let new = entry_bytes ino space_left name in
        let given = drop kept_padding last.padding in
        ap (λ b. overwrite b (length p + last_len) new)
          (overwrite-append p (record_bytes last) 4 (le 2 last_len) ∙ ap (λ b. p ++ b) relabelled)
        ∙ overwrite-append p (record_bytes shortened ++ given) last_len new
        ∙ ap (λ b. p ++ b)
            (ap (λ n. overwrite (record_bytes shortened ++ given) n new)
                (omega (arith, rec_len-shortened, length-record_bytes shortened))
              ∙ overwrite-append (record_bytes shortened) given 0 new
              ∙ ap (λ b. record_bytes shortened ++ b) entered)

    -- The bytes of the block, changed as `add_entry` changes them.
    pub with_entry-returns :
        (beyond : ℕ → ℕ) (rs : List DirRecord) (buffer : List ℕ)
        → buffer ≡ block_bytes rs ++ record_bytes last
        → AreRecords rs
        → FitsRecord last
        → with_entry beyond (length buffer) buffer name ino
          ≡ returned (ok (block_bytes rs ++ (record_bytes shortened ++ record_bytes added)))
    unfolding with_entry
    with_entry-returns beyond rs buffer e are fits =
        ap (λ r. split_last (byte_of beyond buffer) buffer r name ino)
          (find_last-finds beyond buffer (suc (length buffer)) 0 [] rs last e refl are fits
              (omega arith)
            ∙ ap ok (zero_add (length (block_bytes rs))))
        ∙ rw (ap (λ h. h.rec_len) header, ap (λ h. h.name_len) header, fits_last, fits_new)
            (ap (λ b. returned (ok b))
              (ap
                  (λ b.
                    overwrite (overwrite b (length (block_bytes rs) + 4) (le 2 last_len))
                      (length (block_bytes rs) + last_len) (entry_bytes ino space_left name))
                  e
                ∙ split_bytes (block_bytes rs)))
      where
        header : header_at (byte_of beyond buffer) (length (block_bytes rs)) ≡ header_of last
        header =
            header-here beyond buffer (block_bytes rs) last [] (length (block_bytes rs))
              (e ∙ ap (λ b. block_bytes rs ++ b) (sym (append-nil (record_bytes last)))) refl fits

        fits_last : ltb (rec_len last) last_len ≡ false
        fits_last = ground (arith, room)

        fits_new : ltb space_left (aligned (8 + length name)) ≡ false
        fits_new = ground (arith, room)

-- None of the records has the name.
abbrev pub AreOthers : List ℕ → List DirRecord → Type 0
AreOthers name [] = Unit
AreOthers name (r ∷ rs) = (same r.name name ≡ false) × AreOthers name rs

module _ {D : Type 0} (dev : BlockDevice D) (v : Ext4Volume) (d : D) where
  pub passed :
      (r : DirRecord) (rs : List DirRecord) (other : List ℕ)
      → same r.name other ≡ false
      → found_among dev v d other (r ∷ rs) ≡ found_among dev v d other rs
  passed r rs other ne = elim (Bool-cases (r.inode == 0)) [
    | inl unused ↦ rw unused refl
    | inr used ↦ rw (used, not_named) refl
  ]
    where
      not_named : is_named r.name other ≡ false
      not_named = ground (arith, ne)

  pub found_behind :
      (name : List ℕ) (rs ss : List DirRecord)
      → AreOthers name rs
      → found_among dev v d name (rs ++ ss) ≡ found_among dev v d name ss
  found_behind name [] ss others = refl
  found_behind name (r ∷ rs) ss (ne, others) =
      passed r (rs ++ ss) name ne ∙ found_behind name rs ss others

  pub found_record :
      (name : List ℕ) (ino : ℕ) (inode : Ext4Inode) (r : DirRecord)
      → r.name ≡ name
      → r.inode ≡ ino
      → 0 < ino
      → is_utf8 (from_utf8 name) ≡ true
      → read_inode dev v ino d ≡ returned (ok inode, d)
      → found_among dev v d name (r ∷ []) ≡ some (returned (some (node_of v ino inode)))
  found_record name ino inode r named numbered nonzero utf8 e =
      rw (named, numbered, is_used, is_it, e) refl
    where
      is_used : (ino == 0) ≡ false
      is_used = ground (arith, nonzero)

      is_it : is_named name name ≡ true
      is_it = ground (arith, utf8, same_refl name)

  -- Records with the same names and numbers are found alike.
  pub found_alike :
      (other : List ℕ) (rs : List DirRecord) (r r' new : DirRecord)
      → r.name ≡ r'.name
      → r.inode ≡ r'.inode
      → same new.name other ≡ false
      → found_among dev v d other (rs ++ (r' ∷ new ∷ []))
        ≡ found_among dev v d other (rs ++ (r ∷ []))
  found_alike other [] r r' new named numbered ne =
      rw (passed new [] other ne, named, numbered) refl
  found_alike other (x ∷ rs) r r' new named numbered ne =
      rw (found_alike other rs r r' new named numbered ne) refl
