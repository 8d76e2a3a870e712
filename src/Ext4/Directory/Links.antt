-- ===== src/Ext4/Directory/Links.antt =====
-- What a directory holds after `add_entry`.
use nwin_os.Common.{
  ℕ, suc, ◌+◌, ◌^◌, ◌≤◌, ◌<◌, ◌≡◌, refl, sym, ap, ◌∙◌, true, false, Option, some, List, [], ◌∷◌,
  ◌++◌, append-nil, length, length-append, arith,
}
use nwin_os.Common.Dict.{same}
use nwin_os.Common.Outcome.{Outcome, returned, ok}
use nwin_os.Common.Utf8.{from_utf8}
use nwin_os.Ext4.{Ext4Inode}
use nwin_os.Ext4.Device.{BlockDevice}
use nwin_os.Ext4.Directory.{
  DirRecord, rec_len, record_bytes, block_bytes, FitsRecord, AreRecords, length-record_bytes,
}
use nwin_os.Ext4.Directory.Adds.{
  shortened, added, linked_bytes, rec_len-shortened, rec_len-added, with_entry-returns, AreOthers,
  found_behind, found_record, found_alike, passed,
}
use nwin_os.Ext4.Directory.Walks.{block_bytes-append, AreRecords-append, found_among, search-finds}
use nwin_os.Ext4.Node.{Ext4Node, node_of, byte_of, aligned, with_entry, is_utf8, search}
use nwin_os.Ext4.Volume.{Ext4Volume, read_inode}

module _ {D : Type 0} (dev : BlockDevice D) (v : Ext4Volume) (d : D) (beyond : ℕ → ℕ) where
  -- The search of `lookup` in a buffer that was read as a whole.
  abbrev pub search_buffer : (buffer name : List ℕ) → Option (Outcome (Option Ext4Node))
  search_buffer buffer name =
      search dev (suc (length buffer)) v d (length buffer) (byte_of beyond buffer) buffer name 0

  pub search_records :
      (rs : List DirRecord) (buffer name : List ℕ)
      → buffer ≡ block_bytes rs
      → AreRecords rs
      → search_buffer buffer name ≡ found_among dev v d name rs
  search_records rs buffer name e are =
      search-finds dev v d name beyond buffer (suc (length buffer)) 0 [] rs e refl are (omega arith)
        (omega arith)

  -- The block with the new entry: as long as before, the name gives the inode's node, and every other
  -- name gives what it gave before.
  pub record Links (buffer linked name : List ℕ) (ino : ℕ) (inode : Ext4Inode) : Type 0 where
    pub with_entry_gives : with_entry beyond (length buffer) buffer name ino ≡ returned (ok linked)
    pub same_length : length linked ≡ length buffer
    pub is_found : search_buffer linked name ≡ some (returned (some (node_of v ino inode)))
    pub others_found :
        (other : List ℕ)
        → same name other ≡ false
        → search_buffer linked other ≡ search_buffer buffer other

  module _ (rs : List DirRecord) (last : DirRecord) (name : List ℕ) (ino : ℕ) (inode : Ext4Inode)
      (are : AreRecords rs) (fits : FitsRecord last) (others : AreOthers name rs)
      (other_last : same last.name name ≡ false)
      (room : aligned (8 + length last.name) + aligned (8 + length name) ≤ rec_len last)
      (short : length name < 256) (utf8 : is_utf8 (from_utf8 name) ≡ true) (nonzero : 0 < ino)
      (numbered : ino < 2 ^ 32) (e : read_inode dev v ino d ≡ returned (ok inode, d)) where
    abbrev ending : List DirRecord
    ending = shortened last name ino ∷ added last name ino ∷ []

    ending_fits : AreRecords ending
    ending_fits = (
      record {
        inode_fits = fits.inode_fits;
        rec_len_fits =
            omega (arith, rec_len-shortened last name ino room short, room, fits.rec_len_fits);
      },
      (
        record {
          inode_fits = numbered;
          rec_len_fits = omega (arith, rec_len-added last name ino room short, fits.rec_len_fits);
        },
        tt,
      ),
    )

    linked_records : linked_bytes last name ino rs ≡ block_bytes (rs ++ ending)
    linked_records =
        ap (λ b. block_bytes rs ++ (record_bytes (shortened last name ino) ++ b))
          (sym (append-nil (record_bytes (added last name ino))))
        ∙ sym (block_bytes-append rs ending)

    before : block_bytes (rs ++ (last ∷ [])) ≡ block_bytes rs ++ record_bytes last
    before =
        block_bytes-append rs (last ∷ [])
        ∙ ap (λ b. block_bytes rs ++ b) (append-nil (record_bytes last))

    as_long : length (linked_bytes last name ino rs) ≡ length (block_bytes (rs ++ (last ∷ [])))
    as_long = omega (
      arith,
      ap length before,
      length-append (block_bytes rs) (record_bytes last),
      length-append (block_bytes rs)
          (record_bytes (shortened last name ino) ++ record_bytes (added last name ino)),
      length-append (record_bytes (shortened last name ino)) (record_bytes (added last name ino)),
      length-record_bytes last,
      length-record_bytes (shortened last name ino),
      length-record_bytes (added last name ino),
      rec_len-shortened last name ino room short,
      rec_len-added last name ino room short,
      room,
    )

    searched :
        (wanted : List ℕ)
        → search_buffer (linked_bytes last name ino rs) wanted
          ≡ found_among dev v d wanted (rs ++ ending)
    searched wanted =
        search_records (rs ++ ending) (linked_bytes last name ino rs) wanted linked_records
          (AreRecords-append rs ending are ending_fits)

    -- What `add_entry` makes of the bytes of a directory.
    pub with_entry-Links :
        Links (block_bytes (rs ++ (last ∷ []))) (linked_bytes last name ino rs) name ino inode
    with_entry-Links = record {
      with_entry_gives =
          with_entry-returns last name ino room short beyond rs (block_bytes (rs ++ (last ∷ [])))
            before are fits;
      same_length = as_long;
      is_found =
          searched name
          ∙ found_behind dev v d name rs ending others
          ∙ passed dev v d (shortened last name ino) (added last name ino ∷ []) name other_last
          ∙ found_record dev v d name ino inode (added last name ino) refl refl nonzero utf8 e;
      others_found = λ other ne.
          searched other
          ∙ found_alike dev v d other rs last (shortened last name ino) (added last name ino) refl
              refl ne
          ∙ sym (
              search_records (rs ++ (last ∷ [])) (block_bytes (rs ++ (last ∷ []))) other refl
                (AreRecords-append rs (last ∷ []) are (fits, tt)));
    }
