-- ===== src/Ext4/Device.antt =====
-- The block device of src/fs/mod.rs, and the chains of fallible operations on it that the ext4 driver
-- is made of: a step gives its value or an error, and the device as it is then, or it panics.
use nwin_os.Common.{
  ℕ, ◌^◌, ◌<◌, ◌≡◌, ◌≢◌, Bool, true, false, Option, none, some, List, ltb, if◌then◌else◌, length,
  get_or,
}
use nwin_os.Common.Outcome.{Outcome, returned, panicked, Result, ok, err}
use nwin_os.Error.{FsError, block_read, block_write}

-- A read gives the block, unless it fails; a write tells whether it succeeded.
pub record BlockDevice (D : Type 0) : Type 0 where
  pub read_block : D → ℕ → Option (List ℕ)
  pub write_block : D → ℕ → List ℕ → Bool × D

-- A device that keeps what is written: a block has 512 bytes, a write that succeeds is read back, and
-- no write changes another block.
pub record IsStorage {D : Type 0} (dev : BlockDevice D) : Type 0 where
  pub block_sized : (d : D) (n : ℕ) (b : List ℕ) → dev.read_block d n ≡ some b → length b ≡ 512
  pub block_bytes :
      (d : D) (n : ℕ) (b : List ℕ) → dev.read_block d n ≡ some b → (i : ℕ) → get_or b i 0 < 256
  pub written :
      (d : D) (n : ℕ) (b : List ℕ)
      → (dev.write_block d n b).0 ≡ true
      → dev.read_block (dev.write_block d n b).1 n ≡ some b
  pub kept :
      (d : D) (n m : ℕ) (b : List ℕ)
      → m ≢ n
      → dev.read_block (dev.write_block d n b).1 m ≡ dev.read_block d m

abbrev pub Reply : (D A : Type 0) → Type 0
Reply D A = Outcome (Result A FsError × D)

abbrev pub Io : (D A : Type 0) → Type 0
Io D A = D → Reply D A

module _ {D : Type 0} where
  abbrev pub after : {A B : Type 0} → Reply D A → (A → Io D B) → Reply D B
  after panicked f = panicked
  after (returned (err e, d)) f = returned (err e, d)
  after (returned (ok a, d)) f = f a d

  infixl 5 ◌>>=◌ ◌>>◌
  abbrev pub ◌>>=◌ : {A B : Type 0} → Io D A → (A → Io D B) → Io D B
  ◌>>=◌ m f d = after (m d) f

  abbrev pub ◌>>◌ : {A B : Type 0} → Io D A → Io D B → Io D B
  ◌>>◌ m k d = after (m d) (λ a. k)

  abbrev pub pure : {A : Type 0} → A → Io D A
  pure a d = returned (ok a, d)

  abbrev pub fail : {A : Type 0} → FsError → Io D A
  fail e d = returned (err e, d)

  abbrev pub lift : {A : Type 0} → Outcome A → Io D A
  lift panicked d = panicked
  lift (returned a) d = returned (ok a, d)

  abbrev pub unless : {A : Type 0} → Bool → FsError → Io D A → Io D A
  unless true e m d = returned (err e, d)
  unless false e m d = m d

  -- A 64-bit number: an overflow panics.
  abbrev pub word : ℕ → Io D ℕ
  word n d = if ltb n (2 ^ 64) then returned (ok n, d) else panicked

abbrev pub fetched : {D : Type 0} → D → Option (List ℕ) → Reply D (List ℕ)
fetched d none = returned (err block_read, d)
fetched d (some b) = returned (ok b, d)

abbrev pub stored : {D : Type 0} → Bool × D → Reply D Unit
stored (true, d) = returned (ok tt, d)
stored (false, d) = returned (err block_write, d)

module _ {D : Type 0} (dev : BlockDevice D) where
  -- `read_block` and `write_block`, with their errors mapped as the driver maps them.
  abbrev pub fetch : ℕ → D → Reply D (List ℕ)
  fetch n d = fetched d (dev.read_block d n)

  abbrev pub store : ℕ → List ℕ → D → Reply D Unit
  store n b d = stored (dev.write_block d n b)
