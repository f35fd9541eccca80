-- ===== src/Monitor/Watched.antt =====
-- The set of descriptors that start of src/Monitor.cc watches, and the bound that it gives select().
use mathlib.Core.Path.{subst}
use system_t.Monitor.Returns.{IfReturns, IfReturns-bind, IfReturns-if, IfReturns-trivial}
use system_t.Base.{
  ℕ, ◌-◌, ◌≤◌, ◌≡◌, refl, ap, ◌∙◌, ◌≢◌, ◌⊎◌, inl, inr, true, false, some, List, [], ◌∷◌, arith,
  ◌==◌, if◌then◌else◌, Option-cases, List-cases,
}
use system_t.Map.{find}
use system_t.Outcome.{returns}
use system_t.Log.Manager.{rollback}
use system_t.Monitor.State.{Monitor, is_committing}
use system_t.Monitor.Locks.{remove}
use system_t.Monitor.Handlers.{process_clientrq, flush_transaction}
use system_t.Monitor.Rest.{OneMore, process_clientrq-OneMore}
use system_t.Monitor.Server.{
  Message, request, closed, Server, Inbox, is_set, Round, start_round, accept_round, accept_client,
  client_disconnect, forget, serve_client, serve_clients, turn,
}

-- What the loop keeps true of its variables.
pub record LoopOk (sockfd : ℕ) (s : Round) : Type 0 where
  pub bound : (fd : ℕ) → is_set fd s.everyone ≡ true → fd ≤ s.maxfd
  pub own : is_set sockfd s.everyone ≡ true
  pub listed :
      (fd : ℕ)
      → is_set fd s.everyone ≡ true
      → (fd ≡ sockfd) ⊎ (is_set fd s.server.monitor.clients ≡ true)
  pub foreign : (fd : ℕ) → is_set fd s.server.monitor.clients ≡ true → fd ≢ sockfd

pub is_set-remove :
    (p fd : ℕ) (fds : List ℕ)
    → is_set fd (remove p fds) ≡ (if p == fd then false else is_set fd fds)
unfolding remove
is_set-remove p fd [] = ground arith
is_set-remove p fd (x ∷ xs) = ground (arith, is_set-remove p fd xs)

clients-forget : (fd tid : ℕ) (m : Monitor) → (forget fd tid m).clients ≡ m.clients
unfolding forget flush_transaction
clients-forget fd tid m = elim (Option-cases (find tid m.status)) [
  | inl e ↦ rw (e, forget, flush_transaction) refl
  | inr (p, e) ↦ rw (e, forget, flush_transaction) refl
]

abbrev SameClients : Server → Server → Type 0
SameClients s s' = s'.monitor.clients ≡ s.monitor.clients

client_disconnect-SameClients :
    (fuel fd : ℕ) (s : Server) → IfReturns (SameClients s) (client_disconnect fuel fd s)
unfolding client_disconnect
client_disconnect-SameClients fuel fd s = elim (Option-cases (find fd s.monitor.transactions)) [
  | inl e ↦ rw (e, client_disconnect) refl
  | inr (tid, e) ↦ elim (Option-cases (find tid s.monitor.status)) [
    | inl e' ↦ rw (e, client_disconnect) (rw e' refl)
    | inr (q, e') ↦
        rw (e, client_disconnect)
          (rw e' (
            let undo =
              (if is_committing q.stat
                then rollback fuel tid s.logger s.disk
                else returns (s.logger, s.disk)) in
            IfReturns-bind (λ a. Unit) (SameClients s) undo _ (IfReturns-trivial undo)
              (λ (l, d) _. clients-forget fd tid s.monitor)))
  ]
]

-- The same watched set, or one descriptor less.
module _ (sockfd : ℕ) where
  kept :
      (s s' : Round)
      → LoopOk sockfd s
      → s'.server.monitor.clients ≡ s.server.monitor.clients
      → s'.everyone ≡ s.everyone
      → s'.maxfd ≡ s.maxfd
      → LoopOk sockfd s'
  kept s s' ok c e m = record {
    bound = rw (e, m) ok.bound;
    own = rw e ok.own;
    listed = rw (e, c) ok.listed;
    foreign = rw c ok.foreign;
  }

  cleared :
      (s s' : Round) (p : ℕ)
      → LoopOk sockfd s
      → p ≢ sockfd
      → s'.server.monitor.clients ≡ s.server.monitor.clients
      → s'.everyone ≡ remove p s.everyone
      → s'.maxfd ≡ s.maxfd
      → LoopOk sockfd s'
  cleared s s' p ok n c e m =
      let still : (fd : ℕ) → is_set fd s'.everyone ≡ true → is_set fd s.everyone ≡ true =
        rw e (λ fd at. ground (arith, is_set-remove p fd s.everyone)) in
      record {
        bound = λ fd at. rw m (ok.bound fd (still fd at));
        own = rw e (let o = ok.own in ground (arith, is_set-remove p sockfd s.everyone));
        listed = λ fd at. rw c (ok.listed fd (still fd at));
        foreign = rw c ok.foreign;
      }

  accepted :
      (fd : ℕ) (s : Round) → LoopOk sockfd s → fd ≢ sockfd → LoopOk sockfd (accept_round fd s)
  unfolding accept_round accept_client
  accepted fd s ok n = record {
    bound = λ g at. let old = ok.bound g in ground arith;
    own = let o = ok.own in ground arith;
    listed = λ g at. let old = ok.listed g in ground arith;
    foreign = λ g at. let old = ok.foreign g in ground arith;
  }

  -- A client that is served is not the monitor's own socket.
  module _ (front_of_empty fuel now p : ℕ) (n : p ≢ sockfd) (s : Round) (ok : LoopOk sockfd s) where
    served_one :
        (message : Message) (later : List Message)
        → find p s.inbox ≡ some (message ∷ later)
        → IfReturns (LoopOk sockfd) (serve_client front_of_empty fuel now p s)
    unfolding serve_client
    served_one closed later e =
        rw (e, serve_client)
          (IfReturns-bind (SameClients s.server) (LoopOk sockfd) (client_disconnect fuel p s.server)
            _ (client_disconnect-SameClients fuel p s.server)
            (λ server' same. cleared s _ p ok n same refl refl))
    served_one (request t) later e =
        rw (e, serve_client)
          (IfReturns-bind (OneMore s.server.monitor) (LoopOk sockfd)
            (process_clientrq front_of_empty t p now s.server.monitor) _
            (process_clientrq-OneMore front_of_empty t p now s.server.monitor)
            (λ (m, r) one. kept s _ ok one.clients refl refl))

    serve_client-LoopOk : IfReturns (LoopOk sockfd) (serve_client front_of_empty fuel now p s)
    unfolding serve_client
    serve_client-LoopOk = elim (Option-cases (find p s.inbox)) [
      | inl e ↦ rw (e, serve_client) tt
      | inr (messages, e) ↦ elim (List-cases messages) [
        | inl e' ↦ rw (e, serve_client) (rw e' tt)
        | inr (x, xs, e') ↦ served_one x xs (e ∙ ap some e')
      ]
    ]

  serve_clients-LoopOk :
      (front_of_empty fuel now : ℕ) (readset clients : List ℕ) (ready : ℕ) (s : Round)
      → ((fd : ℕ) → is_set fd clients ≡ true → fd ≢ sockfd)
      → LoopOk sockfd s
      → IfReturns (LoopOk sockfd) (serve_clients front_of_empty fuel now readset clients ready s)
  unfolding serve_clients
  serve_clients-LoopOk front_of_empty fuel now readset [] ready s n ok = ok
  serve_clients-LoopOk front_of_empty fuel now readset (p ∷ ps) ready s n ok =
      let others : (fd : ℕ) → is_set fd ps ≡ true → fd ≢ sockfd = λ fd at. n fd (ground arith) in
      IfReturns-if (LoopOk sockfd) (is_set p readset) _ _
        (IfReturns-bind (LoopOk sockfd) (LoopOk sockfd) (serve_client front_of_empty fuel now p s) _
          (serve_client-LoopOk front_of_empty fuel now p (n p (ground arith)) s ok)
          (λ s' ok'.
            IfReturns-if (LoopOk sockfd) (ready - 1 == 0) _ _ ok'
              (serve_clients-LoopOk front_of_empty fuel now readset ps (ready - 1) s' others ok')))
        (serve_clients-LoopOk front_of_empty fuel now readset ps ready s others ok)

  turn-LoopOk :
      (front_of_empty fuel now ready fd : ℕ) (readset : List ℕ) (s : Round)
      → fd ≢ sockfd
      → LoopOk sockfd s
      → IfReturns
          (LoopOk sockfd)
          (turn front_of_empty fuel now sockfd (some (readset, ready)) (some fd) s)
  unfolding turn
  turn-LoopOk front_of_empty fuel now ready fd readset s n ok =
      let s' = accept_round fd s in
      let ok' = accepted fd s ok n in
      IfReturns-if (LoopOk sockfd) (is_set sockfd readset) _ _
        (IfReturns-if (LoopOk sockfd) (ready - 1 == 0) _ _ ok' (
          serve_clients-LoopOk front_of_empty fuel now readset s'.server.monitor.clients (ready - 1)
            s' ok'.foreign ok'))
        (serve_clients-LoopOk front_of_empty fuel now readset s.server.monitor.clients ready s
          ok.foreign ok)

-- The states that the loop of start goes through from its beginning on: messages arrive on sockets,
-- and turns that return follow each other, whatever select() answers. accept() never gives the
-- descriptor of the monitor's own socket, which is open.
pub data Looping (front_of_empty sockfd : ℕ) : Round → Type 0 where
  started :
      (server : Server)
      → server.monitor.clients ≡ []
      → Looping front_of_empty sockfd (start_round sockfd server)
  arrived :
      {s : Round} (box : Inbox)
      → Looping front_of_empty sockfd s
      → Looping front_of_empty sockfd (record s { inbox = box })
  turned :
      {s s' : Round} (fuel now ready fd : ℕ) (readset : List ℕ)
      → Looping front_of_empty sockfd s
      → fd ≢ sockfd
      → turn front_of_empty fuel now sockfd (some (readset, ready)) (some fd) s ≡ returns s'
      → Looping front_of_empty sockfd s'

-- In every state of the loop, select() is given a bound that covers every descriptor in the watched
-- set, the monitor's own socket is among them, and each other one is in the list of clients, so
-- that whatever select() reports is served.
pub Looping-LoopOk :
    (front_of_empty sockfd : ℕ) {s : Round} → Looping front_of_empty sockfd s → LoopOk sockfd s
unfolding start_round
Looping-LoopOk front_of_empty sockfd (started server none_yet) = record {
  bound = λ fd at. ground arith;
  own = ground arith;
  listed = λ fd at. ground arith;
  foreign = rw none_yet (λ fd at. absurd (ground arith));
}
Looping-LoopOk front_of_empty sockfd (arrived {s} box run) =
    kept sockfd s _ (Looping-LoopOk front_of_empty sockfd run) refl refl refl
Looping-LoopOk front_of_empty sockfd (turned {s} fuel now ready fd readset run n e) =
    subst (IfReturns (LoopOk sockfd)) e (
      turn-LoopOk sockfd front_of_empty fuel now ready fd readset s n
        (Looping-LoopOk front_of_empty sockfd run))
