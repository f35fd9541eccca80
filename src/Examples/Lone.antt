-- ===== src/Examples/Lone.antt =====
-- The test program st4 on a store of three blocks, at a monitor that nobody else uses.
use system_t.Base.{◌≡◌, refl, [], ◌∷◌, arith}
use system_t.Map.{find, insert, modify, erase}
use system_t.Trq.{read, write}
use system_t.Monitor.State.{init}
use system_t.Monitor.Server.{accept_client}
use system_t.Monitor.Runs.{accept_client-Inv}
use system_t.Monitor.Invariant.{init-Inv}
use system_t.Transaction.State.{Transaction, gives, deref}
use system_t.Transaction.Calls.{read_block, write_block}
use system_t.Transaction.Asking.{Gives}
use system_t.Transaction.Client.{IsFresh, IsGranted}
use system_t.Programs.Serial.{st4}
use system_t.Programs.Retries.{is_st4, body_of}
use system_t.Programs.Lone.{test_program-IsGranted}
use system_t.Examples.Programs.{before, three_blocks, reply_to, state_of}

-- After Begin: the messages to read blocks 2 and 3 and to write block 2 will be answered OK.
abbrev begun_one : Transaction
begun_one =
    record (before three_blocks (reply_to read 1 ∷ reply_to read 1 ∷ reply_to write 1 ∷ [])) {
      tid = 1;
    }

abbrev written_one : Transaction
written_one = state_of (body_of is_st4 0 (9 ∷ []) begun_one) begun_one

st4_ends : body_of is_st4 0 (9 ∷ []) begun_one ≡ gives tt written_one
unfolding st4 find insert modify erase read_block deref write_block
st4_ends = refl

begun_one-IsFresh : IsFresh (accept_client 4 init) begun_one
unfolding accept_client init
begun_one-IsFresh = record { tid = refl; blockmap = refl; granted = (refl, (refl, (refl, tt))) }

test_program-IsGranted_example :
    Gives
      (λ _ t. IsGranted 0 4 (accept_client 4 init) begun_one t)
      (body_of is_st4 0 (9 ∷ []) begun_one)
unfolding accept_client init find
test_program-IsGranted_example =
    test_program-IsGranted is_st4 0 (9 ∷ []) 0 4 (accept_client 4 init) begun_one
      (accept_client-Inv 4 init init-Inv) (omega arith) (omega arith)
      (λ b t (h, e, x). ground arith) begun_one-IsFresh
