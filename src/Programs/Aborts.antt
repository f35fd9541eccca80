-- ===== src/Programs/Aborts.antt =====
-- The test program src/st5.cc, which writes block 2 and aborts.
use system_t.Base.{ℕ, ◌≡◌, refl, true, List, [], ◌∷◌}
use system_t.Map.{find, insert, modify, erase}
use system_t.Trq.{Trq, ok}
use system_t.Disk.{Block, Disk, allocated}
use system_t.Transaction.State.{Transaction, te_abort, Ran, throws, deref}
use system_t.Transaction.Calls.{read_block, write_block}
use system_t.Transaction.Ending.{attempt, construct, leave_scope}
use system_t.Transaction.Traceless.{Fails}
use system_t.Programs.Serial.{st5}
use system_t.Programs.Retries.{st5-Fails}

-- The pass ends with TE_ABORT, and the files are these.
abbrev pub AbortsWith : Disk → Ran (Unit {0}) → Type 0
AbortsWith d (throws te_abort t) = t.disk ≡ d
AbortsWith d _ = ⊥

abbrev pub granted : Trq → Trq
granted r = record r { reply = ok }

-- A process without buffers, to which BEGIN, two READs and a WRITE will be granted.
abbrev pub granted_start : Disk → (b r r' w : Trq) → List Trq → Transaction → Transaction
granted_start d b r r' w later s = record s {
  heap = record { buffers = []; fresh = 1 };
  disk = d;
  replies = granted b ∷ granted r ∷ granted r' ∷ granted w ∷ later;
}

-- Blocks 2 and 3 are allocated.
abbrev pub with_blocks : Block → Block → Block → List Block → ℕ → List ℕ → Disk → Disk
with_blocks v₁ v₂ v₃ store i index d = record d {
  store = v₁ ∷ v₂ ∷ v₃ ∷ store;
  index = i ∷ allocated ∷ allocated ∷ index;
}

st5-AbortsWith :
    (old v₁ v₂ v₃ : Block) (store : List Block) (i : ℕ) (index : List ℕ) (d : Disk) (b r r' w : Trq)
    (later : List Trq) (s : Transaction)
    → AbortsWith
        (with_blocks v₁ v₂ v₃ store i index d)
        (attempt (st5 old) (granted_start (with_blocks v₁ v₂ v₃ store i index d) b r r' w later s))
unfolding attempt construct leave_scope st5 find insert modify erase read_block deref write_block
st5-AbortsWith old v₁ v₂ v₃ store i index d b r r' w later s = refl

-- The test program st5 writes block 2 and aborts. Whatever the monitor replies, a pass of it does not
-- come to its End, and if an exception leaves the pass, the files are as they were before Begin;
-- nothing is said of a pass that does what C++ leaves undefined, ends the process or waits for a
-- reply. In a process without buffers, on a store with blocks 2 and 3 allocated, and if the monitor
-- grants its BEGIN, its two READs and its WRITE, the pass ends with TE_ABORT, and the files are as they
-- were before Begin.
pub st5-undoes :
    (old v₁ v₂ v₃ : Block) (store : List Block) (i : ℕ) (index : List ℕ) (d : Disk) (b r r' w : Trq)
    (later : List Trq) (s : Transaction)
    → Fails true s (attempt (st5 old) s)
      × AbortsWith (with_blocks v₁ v₂ v₃ store i index d) (
          attempt (st5 old) (granted_start (with_blocks v₁ v₂ v₃ store i index d) b r r' w later s))
st5-undoes old v₁ v₂ v₃ store i index d b r r' w later s =
    (st5-Fails old s, st5-AbortsWith old v₁ v₂ v₃ store i index d b r r' w later s)
