-- ===== src/Transaction/State.antt =====
-- src/Transaction.hh: what a Transaction object keeps, and how a piece of its code can end. Buffers
-- live on a heap, since entries of the block map share them.
use system_t.Base.{ℕ, ◌+◌, Bool, Option, none, some, List}
use system_t.Map.{Map, find, insert, erase}
use system_t.Trq.{Trq}
use system_t.Disk.{Block, Disk}
use system_t.Log.Manager.{LogManager}

pub data TransactionException : Type 0 where
  te_abort te_restart te_fail : TransactionException

pub data Locktype : Type 0 where
  a_lock r_lock w_lock s_lock : Locktype

-- A pointer to a buffer on the heap; `none` is NULL.
abbrev pub Pointer : Type 0
Pointer = Option ℕ

pub record Mblock : Type 0 where
  pub lock : Locktype
  pub data_ : Pointer
  pub oldval : Pointer
  pub oldindex : ℕ

-- The buffers that are allocated, and the next free address.
pub record Heap : Type 0 where
  pub buffers : Map Block
  pub fresh : ℕ

-- The object, the static members last_sleep and last_free_block, and what it works on: the replies
-- of the monitor that are still to come, and the requests that it has sent, newest first.
pub record Transaction : Type 0 where
  pub tid : ℕ
  pub pid : ℕ
  pub error_occured : Bool
  pub last_sleep : ℕ
  pub last_free_block : ℕ
  pub blockmap : Map Mblock
  pub heap : Heap
  pub logger : LogManager
  pub disk : Disk
  pub replies : List Trq
  pub sent : List Trq

-- A call gives a value, throws, waits for a reply that does not come, or does what C++ leaves
-- undefined (a buffer that is not allocated, or that was not filled). `ends` is exit(1), and `spins` stands for a loop that
-- has used up its rounds.
pub data Ran (A : Type 0) : Type 0 where
  gives : A → Transaction → Ran A
  throws : TransactionException → Transaction → Ran A
  waits : Ran A
  faults : Ran A
  ends : Ran A
  spins : Ran A

abbrev pub Act : Type 0 → Type 0
Act A = Transaction → Ran A

infixl 5 ◌>>=◌
abbrev pub ◌>>=◌ : {A B : Type 0} → Ran A → (A → Act B) → Ran B
gives a s >>= f = f a s
throws e s >>= f = throws e s
waits >>= f = waits
faults >>= f = faults
ends >>= f = ends
spins >>= f = spins

-- One piece of code after the other.
unfoldable pub and_then : {A B : Type 0} → Act A → (A → Act B) → Act B
and_then m f s = m s >>= f

-- new byte[BLOCKSIZE], filled.
unfoldable pub new_buffer : Block → Heap → ℕ × Heap
new_buffer v h = (h.fresh, record { buffers = insert h.fresh v h.buffers; fresh = h.fresh + 1 })

-- delete of a pointer that is not NULL.
unfoldable pub delete : ℕ → Heap → Option Heap
delete p h = elim (find p h.buffers) [
  | none ↦ none
  | some v ↦ some (record h { buffers = erase p h.buffers })
]

-- What a pointer leads to.
unfoldable pub deref : Pointer → Heap → Option Block
deref none h = none
deref (some p) h = find p h.buffers
