-- ===== src/Monitor/Server.antt =====
-- src/Monitor.cc, start and client_disconnect: the connections of the clients.
use system_t.Base.{
  ℕ, ◌-◌, Bool, true, false, none, some, List, [], ◌∷◌, ◌==◌, if◌then◌else◌, Option, ltb,
}
use system_t.Map.{Map, find, insert, erase}
use system_t.Outcome.{Outcome, returns, exits, running, ◌>>=◌}
use system_t.Trq.{Trq}
use system_t.Disk.{Disk}
use system_t.Log.Manager.{LogManager, rollback}
use system_t.Monitor.State.{Monitor, is_committing}
use system_t.Monitor.Locks.{remove}
use system_t.Monitor.Handlers.{process_clientrq, flush_transaction}

pub record Server : Type 0 where
  pub monitor : Monitor
  pub logger : LogManager
  pub disk : Disk

-- The transaction and the entry of the client are dropped.
unfoldable pub forget : ℕ → ℕ → Monitor → Monitor
unfolding flush_transaction
forget fd tid m =
    let m' = flush_transaction tid m in record m' { transactions = erase fd m'.transactions }

-- `fuel` bounds the loop of rollback.
unfoldable pub client_disconnect : ℕ → ℕ → Server → Outcome Server
client_disconnect fuel fd s = elim (find fd s.monitor.transactions) [
  | none ↦ returns s
  | some tid ↦ elim (find tid s.monitor.status) [
    | none ↦ returns s
    | some q ↦ do
      (l, d) ←
          (if is_committing q.stat
            then rollback fuel tid s.logger s.disk
            else returns (s.logger, s.disk))
      returns (record { monitor = forget fd tid s.monitor; logger = l; disk = d })
  ]
]

-- What select() finds on a client's socket: a request, or the end of the connection.
pub data Message : Type 0 where
  closed : Message
  request : Trq → Message

-- The messages that wait on each socket.
abbrev pub Inbox : Type 0
Inbox = Map (List Message)

-- An fd_set is the list of its descriptors, in no order.
abbrev pub is_set : ℕ → List ℕ → Bool
is_set p [] = false
is_set p (fd ∷ fds) = if fd == p then true else is_set p fds

-- The variables of start, what waits on the sockets, and the replies that were sent, newest first.
pub record Round : Type 0 where
  pub server : Server
  pub everyone : List ℕ
  pub maxfd : ℕ
  pub inbox : Inbox
  pub sent : List (ℕ × Trq)

-- start before its loop: only the monitor's own socket is watched.
unfoldable pub start_round : ℕ → Server → Round
start_round sockfd s = record {
  server = s;
  everyone = sockfd ∷ [];
  maxfd = sockfd;
  inbox = [];
  sent = [];
}

-- A client that has something to say. readSocket blocks where no message waits.
unfoldable pub serve_client : ℕ → ℕ → ℕ → ℕ → Round → Outcome Round
serve_client front_of_empty fuel now p s = elim (find p s.inbox) [
  | none ↦ running
  | some messages ↦ elim messages [
    | [] ↦ running
    | message ∷ later ↦
        let inbox' = insert p later s.inbox in
        elim message [
          | closed ↦ do
            server' ← client_disconnect fuel p s.server
            returns (record s { server = server'; everyone = remove p s.everyone; inbox = inbox' })
          | request t ↦ do
            (m, r) ← process_clientrq front_of_empty t p now s.server.monitor
            returns (record s {
              server = record (s.server) { monitor = m };
              inbox = inbox';
              sent = (p, r) ∷ s.sent;
            })
        ]
  ]
]

-- The loop over the clients; it ends early when all `ready` sockets were served.
unfoldable pub serve_clients : ℕ → ℕ → ℕ → List ℕ → List ℕ → ℕ → Round → Outcome Round
serve_clients front_of_empty fuel now readset [] ready s = returns s
serve_clients front_of_empty fuel now readset (p ∷ ps) ready s =
    let rest = serve_clients front_of_empty fuel now readset ps in
    if is_set p readset
    then (do
      s' ← serve_client front_of_empty fuel now p s
      if ready - 1 == 0 then returns s' else rest (ready - 1) s')
    else rest ready s

-- clients.push_front(clientfd)
unfoldable pub accept_client : ℕ → Monitor → Monitor
accept_client fd m = record m { clients = fd ∷ m.clients }

-- A new connection: FD_SET, push_front, and the largest descriptor.
unfoldable pub accept_round : ℕ → Round → Round
accept_round fd s = record s {
  server = record (s.server) { monitor = accept_client fd s.server.monitor };
  everyone = fd ∷ s.everyone;
  maxfd = if ltb s.maxfd fd then fd else s.maxfd;
}

-- One turn of the loop of start. `selected` is what select() gives, the set of ready descriptors and
-- their number, or `none` for a failure, and so is `connection` for accept().
unfoldable pub turn : ℕ → ℕ → ℕ → ℕ → Option (List ℕ × ℕ) → Option ℕ → Round → Outcome Round
turn front_of_empty fuel now sockfd selected connection s = elim selected [
  | none ↦ exits
  | some (readset, ready) ↦
      if is_set sockfd readset
      then elim connection [
        | none ↦ exits
        | some fd ↦
            let s' = accept_round fd s in
            if ready - 1 == 0
            then returns s'
            else serve_clients front_of_empty fuel now readset s'.server.monitor.clients (ready - 1)
                s'
      ]
      else serve_clients front_of_empty fuel now readset s.server.monitor.clients ready s
]
