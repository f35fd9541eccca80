-- ===== src/Monitor/Sockets.antt =====
-- The loop of start of src/Monitor.cc over the clients' sockets.
use system_t.Monitor.Handlers.{process_clientrq}
use system_t.Monitor.Server.{Message, serve_client, serve_clients, Round, is_set, request}
use system_t.Base.{ℕ, ◌-◌, ◌≡◌, refl, ◌<◌, ◌++◌, ◌∙◌, true, false, some, List, [], ◌∷◌, arith, ◌==◌}
use system_t.Map.{find, insert, find-insert}
use system_t.Outcome.{returns, running}
use system_t.Trq.{Trq}
use system_t.Monitor.State.{Monitor}

-- The round after a request was answered.
abbrev pub answered : ℕ → Monitor → Trq → List Message → Round → Round
answered p m r later s = record s {
  server = record (s.server) { monitor = m };
  inbox = insert p later s.inbox;
  sent = (p, r) ∷ s.sent;
}

-- None of the clients is ready.
abbrev pub AreIdle : List ℕ → List ℕ → Type 0
AreIdle readset [] = Unit
AreIdle readset (q ∷ qs) = (is_set q readset ≡ false) × AreIdle readset qs

pub serve_client-answered :
    (front_of_empty fuel now p : ℕ) (s : Round) (t r : Trq) (m : Monitor) (later : List Message)
    → find p s.inbox ≡ some (request t ∷ later)
    → process_clientrq front_of_empty t p now s.server.monitor ≡ returns (m, r)
    → serve_client front_of_empty fuel now p s ≡ returns (answered p m r later s)
unfolding serve_client
serve_client-answered front_of_empty fuel now p s t r m later waits e =
    rw (waits, serve_client) (rw e refl)

serve_client-blocks :
    (front_of_empty fuel now p : ℕ) (s : Round)
    → find p s.inbox ≡ some []
    → serve_client front_of_empty fuel now p s ≡ running
unfolding serve_client
serve_client-blocks front_of_empty fuel now p s e = rw (e, serve_client) refl

module _ (front_of_empty fuel now : ℕ) (readset : List ℕ) where
  -- Clients that are not ready are passed over.
  serve_clients-idle :
      (idle ps : List ℕ) (ready : ℕ) (s : Round)
      → AreIdle readset idle
      → serve_clients front_of_empty fuel now readset (idle ++ ps) ready s
        ≡ serve_clients front_of_empty fuel now readset ps ready s
  unfolding serve_clients
  serve_clients-idle [] ps ready s k = refl
  serve_clients-idle (q ∷ qs) ps ready s k =
      rw (k.0, serve_clients) (serve_clients-idle qs ps ready s k.1)

  -- The loop blocks at a client that is ready and of which no message waits.
  serve_clients-blocks :
      (idle others : List ℕ) (p ready : ℕ) (s : Round)
      → AreIdle readset idle
      → is_set p readset ≡ true
      → find p s.inbox ≡ some []
      → serve_clients front_of_empty fuel now readset (idle ++ p ∷ others) ready s ≡ running
  unfolding serve_clients
  serve_clients-blocks idle others p ready s k set waits =
      serve_clients-idle idle (p ∷ others) ready s k
      ∙ rw (set, serve_clients) (rw (serve_client-blocks front_of_empty fuel now p s waits) refl)

-- A descriptor stands twice in the list of clients (it was closed, which does not take it off the
-- list, and given out again), and none of the clients before it and between the two is ready. One
-- request waits on it, and another socket is ready as well: the request is answered, and then the
-- loop reads from the empty socket and blocks for ever.
pub double_client_blocks :
    (front_of_empty fuel now p ready : ℕ) (readset before between others : List ℕ) (s : Round)
    (t r : Trq) (m : Monitor)
    → AreIdle readset before
    → AreIdle readset between
    → is_set p readset ≡ true
    → 1 < ready
    → find p s.inbox ≡ some (request t ∷ [])
    → process_clientrq front_of_empty t p now s.server.monitor ≡ returns (m, r)
    → (serve_client front_of_empty fuel now p s ≡ returns (answered p m r [] s))
      × (serve_clients front_of_empty fuel now readset
            (before ++ (p ∷ (between ++ p ∷ others)))
            ready
            s
          ≡ running)
unfolding serve_clients
double_client_blocks front_of_empty fuel now p ready readset before between others s t r m idle
      idle' set more waits e =
    let first = serve_client-answered front_of_empty fuel now p s t r m [] waits e in
    let nothing : List Message = [] in
    let second =
      serve_clients-blocks front_of_empty fuel now readset between others p (ready - 1)
        (answered p m r [] s) idle' set (ground (arith, find-insert p p nothing s.inbox)) in
    let left : (ready - 1 == 0) ≡ false = ground arith in
    (
      first,
      serve_clients-idle front_of_empty fuel now readset before (p ∷ (between ++ p ∷ others)) ready
            s idle
          ∙ rw (set, serve_clients) (rw first (rw left second)),
    )
