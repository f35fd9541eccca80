-- ===== src/Disk.antt =====
-- The files that the processes share: the data store, its index, and the two logs. A file is the
-- list of its blocks, bytes or records, as every access is aligned to those; reads and writes
-- do not fail.
pub mod Cells
use system_t.Base.{ℕ, zero, suc, Option, none, some, List, [], ◌∷◌}
use system_t.Config.{blocksize}

abbrev pub Block : Type 0
Block = List ℕ

-- The byte of an allocated block in the index.
abbrev pub allocated : ℕ
allocated = b'A'

-- The byte of a block that is free.
abbrev pub unallocated : ℕ
unallocated = b'U'

-- What the log holds for the byte of the index when there is none.
abbrev pub blank : ℕ
blank = b' '

module _ {ℓ} {A : Type ℓ} where
  abbrev pub length : List A → ℕ
  length [] = 0
  length (x ∷ xs) = suc (length xs)

  abbrev pub get_elem? : List A → ℕ → Option A
  get_elem? [] i = none
  get_elem? (x ∷ xs) zero = some x
  get_elem? (x ∷ xs) (suc i) = get_elem? xs i

  abbrev pub replicate : ℕ → A → List A
  replicate zero a = []
  replicate (suc n) a = a ∷ replicate n a

  -- A write at an offset, which overwrites; a file that is too short is filled up by `pad` first.
  unfoldable pub write_at : A → ℕ → A → List A → List A
  write_at pad zero v [] = v ∷ []
  write_at pad zero v (x ∷ xs) = v ∷ xs
  write_at pad (suc i) v [] = pad ∷ write_at pad i v []
  write_at pad (suc i) v (x ∷ xs) = x ∷ write_at pad i v xs

-- A block of zero bytes.
pub zero_block : Block
zero_block = replicate blocksize 0

-- logAction of src/LogManager.hh
pub data LogAction : Type 0 where
  lread lwrite lallocate labort lrelease lbegin lend lcommit : LogAction

-- logrecord of src/LogManager.hh
pub record Logrecord : Type 0 where
  pub tid : ℕ
  pub action : LogAction
  pub block : ℕ
  pub oindex : ℕ
  pub oldval : Block

-- bzero(&lgr, sizeof(lgr)): the action with the number 0 is LREAD.
unfoldable pub zero_record : Logrecord
zero_record = record { tid = 0; action = lread; block = 0; oindex = 0; oldval = zero_block }

-- A line of the log for people: what is printed on it, before it is set as text.
pub data AlogLine : Type 0 where
  entry : ℕ → ℕ → Option ℕ → ℕ → Option Block → AlogLine
  aborted : ℕ → ℕ → AlogLine

pub record Disk : Type 0 where
  pub store : List Block
  pub index : List ℕ
  pub log : List Logrecord
  pub alog : List AlogLine
