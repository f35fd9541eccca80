-- ===== src/Examples/Programs.antt =====
-- The test programs of src/ on small stores.
use system_t.Base.{ℕ, ◌≡◌, refl, [], ◌∷◌, List, false, true, arith}
use system_t.Trq.{Trq, Request, begin, read, write, commit, end, ok, not_ok, allocate, restart}
use system_t.Disk.{Disk, allocated}
use system_t.Log.Manager.{open_log}
use system_t.Transaction.State.{Transaction, Ran, gives}
use system_t.Transaction.Ending.{attempt, begin_end, construct, leave_scope}
use system_t.Transaction.Traceless.{Fails, OnePass}
use system_t.Programs.Serial.{st5, allocate_times}
use system_t.Programs.Concurrent.{ct2}
use system_t.Transaction.Calls.{read_block}
use system_t.Map.{find, insert, modify, erase}
use system_t.Log.Manager.{log, append_record}
use system_t.Disk.{write_at}
use system_t.Transaction.State.{delete, deref}
use system_t.Transaction.Ending.{construct, leave_scope}
use system_t.Programs.Mains.{initstore}
use system_t.Programs.Fresh.{IsFresh, GivesWith, HasTaken, allocate_times-HasTaken}
use system_t.Programs.Retries.{is_ct2, body_of, test_program-OnePass}
use system_t.Programs.Aborts.{AbortsWith, granted_start, st5-undoes}

abbrev pub reply_to : Request → ℕ → Trq
reply_to r t = record { tid = t; pid = 300; request = r; reply = ok; block_no = 0 }

abbrev pub three_blocks : Disk
three_blocks = record {
  store = (10 ∷ []) ∷ (20 ∷ []) ∷ (30 ∷ []) ∷ [];
  index = allocated ∷ allocated ∷ allocated ∷ [];
  log = [];
  alog = [];
}

-- Before Begin; the replies are given.
abbrev pub before : Disk → List Trq → Transaction
before d replies = record {
  tid = 0;
  pid = 300;
  error_occured = false;
  last_sleep = 0;
  last_free_block = 0;
  blockmap = [];
  heap = record { buffers = []; fresh = 1 };
  logger = open_log;
  disk = d;
  replies = replies;
  sent = [];
}

-- The monitor denies the second read of ct2 once, and then grants all.
abbrev reader : Transaction
reader = before three_blocks (
    reply_to begin 7
    ∷ reply_to read 7
    ∷ record (reply_to read 7) { reply = not_ok }
    ∷ reply_to restart 7
    ∷ reply_to begin 8
    ∷ reply_to read 8
    ∷ reply_to read 8
    ∷ reply_to commit 8
    ∷ reply_to end 8
    ∷ [])

abbrev pub state_of : {A : Type 0} → Ran A → Transaction → Transaction
state_of (gives a t) s = t
state_of _ s = s

abbrev read_both : Transaction
read_both = state_of (begin_end 2 (body_of is_ct2 0 []) reader) reader

ct2_ends : begin_end 2 (body_of is_ct2 0 []) reader ≡ gives tt read_both
unfolding begin_end attempt construct leave_scope ct2 find insert modify erase log append_record
    write_at delete deref open_log read_block
ct2_ends = refl

test_program-OnePass_example : OnePass (body_of is_ct2 0 []) reader read_both
test_program-OnePass_example = test_program-OnePass is_ct2 2 0 [] reader read_both ct2_ends

-- The disk of `three_blocks` is one with blocks 2 and 3 allocated.
st5-undoes_example :
    Fails true reader (attempt (st5 (0 ∷ [])) reader)
    × AbortsWith three_blocks (
        attempt (st5 (0 ∷ [])) (
          granted_start three_blocks
            (reply_to begin 7)
            (reply_to read 7)
            (reply_to read 7)
            (reply_to write 7)
            []
            reader))
st5-undoes_example =
    st5-undoes (0 ∷ []) (10 ∷ []) (20 ∷ []) (30 ∷ []) [] allocated [] three_blocks
      (reply_to begin 7) (reply_to read 7) (reply_to read 7) (reply_to write 7) [] reader

-- A new store, and five requests that are granted.
abbrev allocator : Transaction
allocator = before initstore (
    reply_to allocate 7
    ∷ reply_to allocate 7
    ∷ reply_to allocate 7
    ∷ reply_to allocate 7
    ∷ reply_to allocate 7
    ∷ [])

allocator-IsFresh : IsFresh allocator
unfolding initstore
allocator-IsFresh = record { free = refl; granted = (refl, (refl, (refl, (refl, (refl, tt))))) }

allocate_times-HasTaken_example : GivesWith (HasTaken 0 5) (allocate_times 1 5 allocator)
allocate_times-HasTaken_example =
    allocate_times-HasTaken 0 5 allocator allocator-IsFresh (omega arith) (omega arith)
