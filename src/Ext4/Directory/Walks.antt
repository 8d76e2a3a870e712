-- ===== src/Ext4/Directory/Walks.antt =====
-- The two walks over the bytes of a directory, in terms of its records.
use nwin_os.Common.{
  inl, inr, Bool-cases, ℕ, zero, suc, ◌+◌, ◌≤◌, ◌<◌, ◌≡◌, refl, sym, ap, ap₂, ◌∙◌, true, false,
  ◌||◌, Option, none, some, List, [], ◌∷◌, ◌++◌, append_assoc, append-nil, take, drop, length,
  length-append, ltb, leb, ◌==◌, if◌then◌else◌, arith,
}
use nwin_os.Common.Outcome.{Outcome, returned, ok}
use nwin_os.Ext4.Device.{BlockDevice}
use nwin_os.Ext4.Directory.{
  DirRecord, rec_len, record_bytes, block_bytes, FitsRecord, AreRecords, length-record_bytes,
  header_of, header_at-record,
}
use nwin_os.Ext4.Node.{Ext4Node, byte_of, header_at, find_last, is_named, child_or, search}
use nwin_os.Ext4.Slices.{take_front, drop_behind}
use nwin_os.Ext4.Volume.{Ext4Volume, read_inode}

-- One record further.
further :
    (buffer p bytes rest : List ℕ) → buffer ≡ p ++ (bytes ++ rest) → buffer ≡ (p ++ bytes) ++ rest
further buffer p bytes rest e = e ∙ sym (append_assoc p bytes rest)

behind : (p : List ℕ) (r : DirRecord) → length (p ++ record_bytes r) ≡ length p + rec_len r
behind p r = length-append p (record_bytes r) ∙ ap (λ n. length p + n) (length-record_bytes r)

-- The name of a record.
slice-here :
    (buffer p : List ℕ) (r : DirRecord) (rest : List ℕ) (o : ℕ)
    → buffer ≡ p ++ (record_bytes r ++ rest)
    → o ≡ length p
    → take (length r.name) (drop (o + 8) buffer) ≡ r.name
slice-here buffer p r rest o e place =
    ap₂ (λ n b. take (length r.name) (drop (n + 8) b)) place e
    ∙ ap (take (length r.name)) (drop_behind p (record_bytes r ++ rest) 8)
    ∙ ap (take (length r.name)) (append_assoc r.name r.padding rest)
    ∙ take_front (length r.name) r.name (r.padding ++ rest) refl

find_last_ends :
    (fuel size : ℕ) (bytes : ℕ → ℕ) (o len : ℕ)
    → (header_at bytes o).rec_len ≡ len
    → o + len ≡ size
    → find_last (suc fuel) size bytes o ≡ ok o
unfolding find_last
find_last_ends fuel size bytes o len e ends = rw (e, is_end) refl
  where
    is_end : (o + len == size) ≡ true
    is_end = ground (arith, ends)

find_last_passes :
    (fuel size : ℕ) (bytes : ℕ → ℕ) (o len : ℕ)
    → (header_at bytes o).rec_len ≡ len
    → 0 < len
    → o + len < size
    → find_last (suc fuel) size bytes o ≡ find_last fuel size bytes (o + len)
unfolding find_last
find_last_passes fuel size bytes o len e some_bytes inside = rw (e, is_no_end, is_good) refl
  where
    is_no_end : (o + len == size) ≡ false
    is_no_end = ground (arith, inside)

    is_good : (leb size (o + len) || len == 0) ≡ false
    is_good = ground (arith, inside, some_bytes)

-- One more turn than the bytes that are left makes no difference to the walk.
pub find_last_settles :
    (fuel size : ℕ) (bytes : ℕ → ℕ) (o : ℕ)
    → 0 < fuel
    → size < fuel + o
    → find_last (suc fuel) size bytes o ≡ find_last fuel size bytes o
unfolding find_last
find_last_settles zero size bytes o some_fuel enough = absurd (omega (arith, some_fuel))
find_last_settles (suc fuel) size bytes o some_fuel enough =
    elim (Bool-cases (o + (header_at bytes o).rec_len == size)) [
      | inl is_end ↦ rw is_end refl
      | inr is_no_end ↦
          elim (Bool-cases
            (leb size (o + (header_at bytes o).rec_len) || (header_at bytes o).rec_len == 0)) [
              | inl is_bad ↦ rw (is_no_end, is_bad) refl
              | inr is_good ↦
                  rw (is_no_end, is_good)
                    (find_last_settles fuel size bytes (o + (header_at bytes o).rec_len)
                      (ground (arith, is_good, enough)) (ground (arith, is_good, enough)))
            ]
    ]

module _ (beyond : ℕ → ℕ) (buffer : List ℕ) where
  -- The header at the place of a record.
  pub header-here :
      (p : List ℕ) (r : DirRecord) (rest : List ℕ) (o : ℕ)
      → buffer ≡ p ++ (record_bytes r ++ rest)
      → o ≡ length p
      → FitsRecord r
      → header_at (byte_of beyond buffer) o ≡ header_of r
  header-here p r rest o e place fits =
      ap₂ (λ b n. header_at (byte_of beyond b) n) e place ∙ header_at-record beyond p r rest fits

  -- The walk to the last record.
  pub find_last-finds :
      (fuel o : ℕ) (p : List ℕ) (rs : List DirRecord) (last : DirRecord)
      → buffer ≡ p ++ (block_bytes rs ++ record_bytes last)
      → o ≡ length p
      → AreRecords rs
      → FitsRecord last
      → length buffer < fuel + o
      → find_last fuel (length buffer) (byte_of beyond buffer) o ≡ ok (o + length (block_bytes rs))
  find_last-finds zero o p rs last e place are fits enough = absurd (
      omega
        (arith, enough, place, ap length e, length-append p (block_bytes rs ++ record_bytes last)))
  find_last-finds (suc fuel) o p [] last e place are fits enough =
      find_last_ends fuel (length buffer) (byte_of beyond buffer) o (rec_len last)
        (ap (λ h. h.rec_len)
          (header-here p last [] o (e ∙ ap (λ b. p ++ b) (sym (append-nil (record_bytes last))))
            place fits))
        (omega (
          arith,
          place,
          ap length e,
          length-append p (record_bytes last),
          length-record_bytes last,
        ))
      ∙ ap ok (omega arith)
  find_last-finds (suc fuel) o p (r ∷ rs) last e place (fits_r, are) fits enough =
      let flat =
        e ∙ ap (λ b. p ++ b) (append_assoc (record_bytes r) (block_bytes rs) (record_bytes last)) in
      let rest = block_bytes rs ++ record_bytes last in
      find_last_passes fuel (length buffer) (byte_of beyond buffer) o (rec_len r)
        (ap (λ h. h.rec_len) (header-here p r rest o flat place fits_r)) (omega arith)
        (omega (
          arith,
          place,
          ap length flat,
          length-append p (record_bytes r ++ rest),
          length-append (record_bytes r) rest,
          length-record_bytes r,
          length-append (block_bytes rs) (record_bytes last),
          length-record_bytes last,
        ))
      ∙ find_last-finds fuel (o + rec_len r) (p ++ record_bytes r) rs last
          (further buffer p (record_bytes r) rest flat)
          (ap (λ n. n + rec_len r) place ∙ sym (behind p r)) are fits (omega (arith, enough))
      ∙ ap ok
          (omega (arith, length-append (record_bytes r) (block_bytes rs), length-record_bytes r))

-- Appending records appends their bytes.
pub block_bytes-append :
    (rs ss : List DirRecord) → block_bytes (rs ++ ss) ≡ block_bytes rs ++ block_bytes ss
block_bytes-append [] ss = refl
block_bytes-append (r ∷ rs) ss =
    ap (λ b. record_bytes r ++ b) (block_bytes-append rs ss)
    ∙ sym (append_assoc (record_bytes r) (block_bytes rs) (block_bytes ss))

pub AreRecords-append :
    (rs ss : List DirRecord) → AreRecords rs → AreRecords ss → AreRecords (rs ++ ss)
AreRecords-append [] ss are are' = are'
AreRecords-append (r ∷ rs) ss (fits, are) are' = (fits, AreRecords-append rs ss are are')

-- What a search for a name among the records gives.
abbrev pub found_among :
    {D : Type 0}
    → BlockDevice D
    → Ext4Volume
    → D
    → List ℕ
    → List DirRecord
    → Option (Outcome (Option Ext4Node))
found_among dev v d name [] = some (returned none)
found_among dev v d name (r ∷ rs) =
    if r.inode == 0
    then found_among dev v d name rs
    else if is_named r.name name
    then child_or v r.inode (read_inode dev v r.inode d) (found_among dev v d name rs)
    else found_among dev v d name rs

module _ {D : Type 0} (dev : BlockDevice D) (v : Ext4Volume) (d : D) (name : List ℕ)
    (beyond : ℕ → ℕ) (buffer : List ℕ) where
  search_ends :
      (fuel o : ℕ)
      → length buffer ≤ o
      → search dev (suc fuel) v d (length buffer) (byte_of beyond buffer) buffer name o
        ≡ some (returned none)
  unfolding search
  search_ends fuel o behind_it = rw is_over refl
    where
      is_over : (leb (length buffer) o || (header_at (byte_of beyond buffer) o).rec_len == 0) ≡ true
      is_over = ground (arith, behind_it)

  search_record :
      (fuel o : ℕ) (r : DirRecord) (rest : Option (Outcome (Option Ext4Node)))
      → header_at (byte_of beyond buffer) o ≡ header_of r
      → o + rec_len r ≤ length buffer
      → take (length r.name) (drop (o + 8) buffer) ≡ r.name
      → search dev fuel v d (length buffer) (byte_of beyond buffer) buffer name (o + rec_len r)
        ≡ rest
      → search dev (suc fuel) v d (length buffer) (byte_of beyond buffer) buffer name o ≡ (
          if r.inode == 0
          then rest
          else if is_named r.name name
          then child_or v r.inode (read_inode dev v r.inode d) rest
          else rest)
  unfolding search
  search_record fuel o r rest header inside slice go_on =
      rw
        (
          ap (λ h. h.rec_len) header,
          ap (λ h. h.inode) header,
          ap (λ h. h.name_len) header,
          is_inside,
          whole,
          slice,
          go_on,
        )
        refl
    where
      is_inside : (leb (length buffer) o || rec_len r == 0) ≡ false
      is_inside = ground (arith, inside)

      whole : ltb (length buffer) (o + 8 + length r.name) ≡ false
      whole = ground (arith, inside)

  -- The walk of `lookup` over the bytes of records.
  pub search-finds :
      (fuel o : ℕ) (p : List ℕ) (rs : List DirRecord)
      → buffer ≡ p ++ block_bytes rs
      → o ≡ length p
      → AreRecords rs
      → length buffer < fuel + o
      → 0 < fuel
      → search dev fuel v d (length buffer) (byte_of beyond buffer) buffer name o
        ≡ found_among dev v d name rs
  search-finds zero o p rs e place are enough some_fuel = absurd (omega (arith, some_fuel))
  search-finds (suc fuel) o p [] e place are enough some_fuel =
      search_ends fuel o (omega (arith, place, ap length e, length-append p []))
  search-finds (suc fuel) o p (r ∷ rs) e place (fits, are) enough some_fuel =
      let sizes = length-append (record_bytes r) (block_bytes rs) in
      let whole = length-append p (record_bytes r ++ block_bytes rs) in
      search_record fuel o r (found_among dev v d name rs)
        (header-here beyond buffer p r (block_bytes rs) o e place fits)
        (omega (arith, place, ap length e, whole, sizes, length-record_bytes r))
        (slice-here buffer p r (block_bytes rs) o e place)
        (search-finds fuel (o + rec_len r) (p ++ record_bytes r) rs
          (further buffer p (record_bytes r) (block_bytes rs) e)
          (ap (λ n. n + rec_len r) place ∙ sym (behind p r)) are (omega (arith, enough))
          (omega (arith, enough, place, ap length e, whole, sizes, length-record_bytes r)))
