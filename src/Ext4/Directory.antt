-- ===== src/Ext4/Directory.antt =====
-- A directory block as the list of its records, and the walks of the driver over its bytes.
pub mod Walks
pub mod Adds
pub mod Links
pub mod OnDisk
use nwin_os.Common.{
  ℕ, zero, suc, ◌+◌, ◌*◌, ◌%◌, ◌^◌, ◌≤◌, ◌<◌, ◌≡◌, refl, sym, ap, ap₂, ◌∙◌, List, [], ◌∷◌, ◌++◌,
  append_assoc, length, length-append, get_or, lt→ltb, arith,
}
use nwin_os.Elf.{read_le}
use nwin_os.Mbr.{byte}
use nwin_os.Ext4.{Ext4DirEntryHeader, le}
use nwin_os.Ext4.Node.{byte_of, header_at}
use nwin_os.Ext4.Slices.{get_or-append_right, two_bytes, four_bytes}

-- A record with its name and the bytes that fill it up.
pub record DirRecord : Type 0 where
  pub inode : ℕ
  pub file_type : ℕ
  pub name : List ℕ
  pub padding : List ℕ

abbrev pub rec_len : DirRecord → ℕ
rec_len r = 8 + length r.name + length r.padding

abbrev pub record_bytes : DirRecord → List ℕ
record_bytes r =
    le 4 r.inode ++ (le 2 (rec_len r) ++ (length r.name ∷ r.file_type ∷ (r.name ++ r.padding)))

abbrev pub block_bytes : List DirRecord → List ℕ
block_bytes [] = []
block_bytes (r ∷ rs) = record_bytes r ++ block_bytes rs

pub record FitsRecord (r : DirRecord) : Type 0 where
  pub inode_fits : r.inode < 2 ^ 32
  pub rec_len_fits : rec_len r < 2 ^ 16

abbrev pub AreRecords : List DirRecord → Type 0
AreRecords [] = Unit
AreRecords (r ∷ rs) = FitsRecord r × AreRecords rs

pub length-record_bytes : (r : DirRecord) → length (record_bytes r) ≡ rec_len r
length-record_bytes r = omega (arith, length-append r.name r.padding)

read_le-shift :
    (f g : ℕ → ℕ) (a b n : ℕ)
    → ((i : ℕ) → i < n → f (a + i) ≡ g (b + i))
    → read_le f a n ≡ read_le g b n
unfolding read_le
read_le-shift f g a b zero same = refl
read_le-shift f g a b (suc n) same =
    ap₂ (λ x y. x + 256 * y) (ap f (omega arith) ∙ same 0 (omega arith) ∙ ap g (omega arith))
      (read_le-shift f g (a + 1) (b + 1) n
        (λ i h. ap f (omega arith) ∙ same (suc i) (omega (arith, h)) ∙ ap g (omega arith)))

-- The bytes behind a prefix of a buffer.
byte_of-append :
    (beyond : ℕ → ℕ) (p xs : List ℕ) (i : ℕ)
    → i < length xs
    → byte_of beyond (p ++ xs) (length p + i) ≡ byte xs i
byte_of-append beyond p xs i h =
    rw (lt→ltb (length p + i) (length (p ++ xs)) (omega (arith, h, length-append p xs)))
      (get_or-append_right p xs i 0)

abbrev pub header_of : DirRecord → Ext4DirEntryHeader
header_of r = record {
  inode = r.inode;
  rec_len = rec_len r;
  name_len = length r.name;
  file_type = r.file_type;
}

header_at-front :
    (r : DirRecord) (rest : List ℕ)
    → FitsRecord r
    → header_at (byte (record_bytes r ++ rest)) 0 ≡ header_of r
unfolding read_le
header_at-front r rest fits = λ t. record {
  inode = four_bytes r.inode fits.inode_fits t;
  rec_len = two_bytes (rec_len r) fits.rec_len_fits t;
  name_len = length r.name;
  file_type = r.file_type;
}

-- The header of a record behind a prefix.
pub header_at-record :
    (beyond : ℕ → ℕ) (p : List ℕ) (r : DirRecord) (rest : List ℕ)
    → FitsRecord r
    → header_at (byte_of beyond (p ++ (record_bytes r ++ rest))) (length p) ≡ header_of r
header_at-record beyond p r rest fits = shifted ∙ header_at-front r rest fits
  where
    bytes : ℕ → ℕ
    bytes = byte_of beyond (p ++ (record_bytes r ++ rest))

    near : (i : ℕ) → i < 8 → bytes (length p + i) ≡ byte (record_bytes r ++ rest) i
    near i h =
        byte_of-append beyond p (record_bytes r ++ rest) i
          (omega (arith, h, length-append (record_bytes r) rest, length-record_bytes r))

    part :
        (k n : ℕ)
        → k + n ≤ 8
        → read_le bytes (length p + k) n ≡ read_le (byte (record_bytes r ++ rest)) k n
    part k n h =
        read_le-shift bytes (byte (record_bytes r ++ rest)) (length p + k) k n
          (λ i h'. ap bytes (omega arith) ∙ near (k + i) (omega (arith, h, h')))

    shifted : header_at bytes (length p) ≡ header_at (byte (record_bytes r ++ rest)) 0
    shifted = λ t. record {
      inode =
          read_le-shift bytes (byte (record_bytes r ++ rest)) (length p) 0 4
            (λ i h. near i (omega (arith, h)) ∙ ap (byte (record_bytes r ++ rest)) (omega arith)) t;
      rec_len = part 4 2 (omega arith) t;
      name_len = near 6 (omega arith) t;
      file_type = near 7 (omega arith) t;
    }
