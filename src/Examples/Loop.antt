-- ===== src/Examples/Loop.antt =====
-- The loop of start on two clients: transaction 1 on descriptor 4, transaction 2 on descriptor 5, and
-- the monitor's own socket 3.
use system_t.Monitor.Returns.{Returns}
use system_t.Base.{◌≡◌, refl, some, [], ◌∷◌, arith}
use system_t.Map.{find}
use system_t.Log.Manager.{open_log}
use system_t.Trq.{commit, read}
use system_t.Outcome.{returns}
use system_t.Monitor.State.{reading, init}
use system_t.Monitor.Server.{Server, Round, request, turn, start_round}
use system_t.Monitor.Loop.{serve_each, connected}
use system_t.Monitor.Turns.{turn-serve_each}
use system_t.Monitor.Answers.{AllAsk, Answered, turn-Answered}
use system_t.Monitor.Watched.{LoopOk, started, turned, Looping-LoopOk}
use system_t.Examples.Locks.{two_with, two_with-Inv, ask}
use system_t.Examples.Crashes.{one_block}

-- Both clients have sent a request.
abbrev both_ask : Round
both_ask = record {
  server = record { monitor = two_with reading; logger = open_log; disk = one_block [] };
  everyone = 5 ∷ 4 ∷ 3 ∷ [];
  maxfd = 5;
  inbox = (4, request (ask 1 100 commit) ∷ []) ∷ (5, request (ask 2 200 read) ∷ []) ∷ [];
  sent = [];
}

both_asked : AllAsk 0 (5 ∷ 4 ∷ []) (two_with reading).status both_ask.inbox
unfolding find
both_asked = (
  refl,
  record {
    message = ask 2 200 read;
    later = [];
    waits = refl;
    known = λ n. refl;
    apart = λ n. omega arith;
  },
  (
    refl,
    record {
      message = ask 1 100 commit;
      later = [];
      waits = refl;
      known = λ n. refl;
      apart = λ n. omega arith;
    },
    tt,
  ),
)

-- A connection on descriptor 6 comes in the same turn.
turn-serve_each_example :
    turn 0 9 21 3 (some (3 ∷ 4 ∷ 5 ∷ [], 3)) (some 6) both_ask
    ≡ serve_each 0 9 21 (5 ∷ 4 ∷ []) (connected 3 (3 ∷ 4 ∷ 5 ∷ []) 6 both_ask)
turn-serve_each_example =
    turn-serve_each 0 9 21 3 6 3 (3 ∷ 4 ∷ 5 ∷ []) both_ask refl (refl, (refl, tt)) refl refl

turn-Answered_example :
    Returns
      (Answered (5 ∷ 4 ∷ []) (connected 3 (3 ∷ 4 ∷ 5 ∷ []) 6 both_ask))
      (turn 0 9 21 3 (some (3 ∷ 4 ∷ 5 ∷ [], 3)) (some 6) both_ask)
turn-Answered_example =
    turn-Answered 0 9 21 3 6 3 (3 ∷ 4 ∷ 5 ∷ []) both_ask (omega arith) refl (two_with-Inv reading)
      (omega arith) both_asked

abbrev fresh_server : Server
fresh_server = record { monitor = init; logger = open_log; disk = one_block [] }

-- The first client connects.
first_turn :
    turn 0 9 21 3 (some (3 ∷ [], 1)) (some 4) (start_round 3 fresh_server)
    ≡ returns (connected 3 (3 ∷ []) 4 (start_round 3 fresh_server))
unfolding turn start_round
first_turn = refl

Looping-LoopOk_example : LoopOk 3 (connected 3 (3 ∷ []) 4 (start_round 3 fresh_server))
Looping-LoopOk_example =
    Looping-LoopOk 0 3 (
      turned 9 21 1 4 (3 ∷ []) (started fresh_server (unfold init in refl)) (omega arith)
        first_turn)
