-- ===== src/Monitor/Answers.antt =====
-- A turn of the loop of start of src/Monitor.cc in which clients ask, and none closes.
use mathlib.Core.Option
use mathlib.Core.List.{reverse, reverse-cons, append_assoc}
use system_t.Monitor.Returns.{Returns, Returns-map, IfReturns}
use system_t.Base.{
  ℕ, ◌+◌, ◌<◌, ◌≤◌, ◌≡◌, refl, sym, ap, ◌∙◌, ◌≢◌, inl, inr, true, false, some, List, [], ◌∷◌, ◌++◌,
  arith, ◌==◌, if◌then◌else◌, Bool-cases,
}
use system_t.Map.{Map, find, insert, find-insert}
use system_t.Config.{trid_mod}
use system_t.Outcome.{Outcome, returns}
use system_t.Disk.{length}
use system_t.Trq.{Trq, begin}
use system_t.Monitor.State.{Monitor, Tstat}
use system_t.Monitor.Handlers.{process_clientrq}
use system_t.Monitor.Invariant.{Inv, is_known, Grows}
use system_t.Monitor.Safety.{IsServed, process_clientrq-Inv}
use system_t.Monitor.Runs.{accept_client-Inv, process_clientrq-Grows}
use system_t.Monitor.Rest.{OneMore, process_clientrq-OneMore}
use system_t.Monitor.Server.{
  Message, request, Inbox, is_set, Round, accept_round, accept_client, turn,
}
use system_t.Monitor.Sockets.{answered, serve_client-answered}
use system_t.Monitor.Loop.{ready_clients, serve_each, own_socket, connected, turn-serve_counted}

-- A request waits on the descriptor, and it is BEGIN or names a transaction that the monitor knows.
pub record Asks (front_of_empty p : ℕ) (status : Map Tstat) (box : Inbox) : Type 0 where
  pub message : Trq
  pub later : List Message
  pub waits : find p box ≡ some (request message ∷ later)
  pub known : message.request ≢ begin → is_known message.tid status ≡ true
  pub apart : message.request ≢ begin → message.tid ≢ front_of_empty

-- Different descriptors, and on each a request.
abbrev pub AllAsk : ℕ → List ℕ → Map Tstat → Inbox → Type 0
AllAsk front_of_empty [] status box = Unit
AllAsk front_of_empty (p ∷ ps) status box =
    (is_set p ps ≡ false) × Asks front_of_empty p status box × AllAsk front_of_empty ps status box

-- To whom the replies went.
abbrev pub addressees : List (ℕ × Trq) → List ℕ
addressees [] = []
addressees ((p, r) ∷ sent) = p ∷ addressees sent

abbrev pub but_first : List Message → List Message
but_first [] = []
but_first (x ∷ xs) = xs

-- Each of the clients has got one reply, in this order, and one message of each was read.
pub record Answered (ps : List ℕ) (s s' : Round) : Type 0 where
  pub inv : Inv s'.server.monitor
  pub replies : addressees s'.sent ≡ reverse ps ++ addressees s.sent
  pub inbox :
      (j : ℕ)
      → find j s'.inbox
        ≡ (if is_set j ps then Option.map but_first (find j s.inbox) else find j s.inbox)
  pub clients : s'.server.monitor.clients ≡ s.server.monitor.clients
  pub watched : s'.everyone ≡ s.everyone

-- A handler's return, with what it keeps.
pub record Handled (m : Monitor) (o : Outcome (Monitor × Trq)) : Type 0 where
  pub next : Monitor
  pub reply : Trq
  pub returned : o ≡ returns (next, reply)
  pub inv : Inv next
  pub grows : Grows m.status next.status
  pub rest : OneMore m (next, reply)

handled :
    (m : Monitor) (o : Outcome (Monitor × Trq))
    → Returns (λ r. Inv r.0) o
    → Returns (λ r. Grows m.status r.0.status) o
    → IfReturns (OneMore m) o
    → Handled m o
handled m (returns (m', r)) v g h = record {
  next = m';
  reply = r;
  returned = refl;
  inv = v;
  grows = g;
  rest = h;
}
handled m _ v g h = absurd v

-- The others still ask after one was served.
AllAsk-served :
    (front_of_empty p : ℕ) (later : List Message) (ps : List ℕ) (st st' : Map Tstat) (box : Inbox)
    → is_set p ps ≡ false
    → Grows st st'
    → AllAsk front_of_empty ps st box
    → AllAsk front_of_empty ps st' (insert p later box)
AllAsk-served front_of_empty p later [] st st' box n g a = tt
AllAsk-served front_of_empty p later (q ∷ ps) st st' box n g (apart, ask, asks) = (
  apart,
  record {
    message = ask.message;
    later = ask.later;
    waits = let w = ask.waits in ground (arith, find-insert p q later box);
    known = λ e. g ask.message.tid (ask.known e);
    apart = ask.apart;
  },
  AllAsk-served front_of_empty p later ps st st' box (ground arith) g asks,
)

reverse_first : (p : ℕ) (ps xs : List ℕ) → reverse ps ++ p ∷ xs ≡ reverse (p ∷ ps) ++ xs
reverse_first p ps xs =
    sym (ap (λ l. l ++ xs) (reverse-cons p ps) ∙ append_assoc (reverse ps) (p ∷ []) xs)

-- One message of `p` is read, and then one of each of the others.
popped :
    (p j : ℕ) (ps : List ℕ) (t : Trq) (later : List Message) (box : Inbox)
    → is_set p ps ≡ false
    → find p box ≡ some (request t ∷ later)
    → (if is_set j ps
        then Option.map but_first (find j (insert p later box))
        else find j (insert p later box))
      ≡ (if is_set j (p ∷ ps) then Option.map but_first (find j box) else find j box)
popped p j ps t later box apart waits = elim (Bool-cases (p == j)) [
  | inl q ↦
      let same : p ≡ j = ground arith in
      rw (find-insert p j later box, q) (rw (← same) (rw (apart, waits) refl))
  | inr q ↦ rw (find-insert p j later box, q) refl
]

module _ (front_of_empty fuel now : ℕ) where
  serve_each-Answered :
      (ps : List ℕ) (s : Round)
      → Inv s.server.monitor
      → s.server.monitor.next_tid + length ps < trid_mod
      → AllAsk front_of_empty ps s.server.monitor.status s.inbox
      → Returns (Answered ps s) (serve_each front_of_empty fuel now ps s)
  unfolding serve_each
  serve_each-Answered [] s v room a = record {
    inv = v;
    replies = refl;
    inbox = λ j. refl;
    clients = refl;
    watched = refl;
  }
  serve_each-Answered (p ∷ ps) s v room (apart, ask, asks) =
      let t = ask.message in
      let m = s.server.monitor in
      let served : IsServed front_of_empty t.request t.tid m = record {
        room = omega arith;
        known = ask.known;
        apart = ask.apart;
      } in
      let h =
        handled m (process_clientrq front_of_empty t p now m)
          (process_clientrq-Inv front_of_empty t p now m v served)
          (process_clientrq-Grows front_of_empty p now t m v served)
          (process_clientrq-OneMore front_of_empty t p now m) in
      let s' = answered p h.next h.reply ask.later s in
      rw
        (serve_client-answered front_of_empty fuel now p s t h.reply h.next ask.later ask.waits
          h.returned)
        (Returns-map (Answered ps s') (Answered (p ∷ ps) s)
          (serve_each front_of_empty fuel now ps s')
          (λ e a. record {
            inv = a.inv;
            replies = a.replies ∙ reverse_first p ps (addressees s.sent);
            inbox = λ j. a.inbox j ∙ popped p j ps t ask.later s.inbox apart ask.waits;
            clients = a.clients ∙ h.rest.clients;
            watched = a.watched;
          })
          (serve_each-Answered ps s' h.inv (let k = h.rest.next_tid in omega arith) (
            AllAsk-served front_of_empty p ask.later ps m.status h.next.status s.inbox apart h.grows
              asks)))

  -- A turn in which no client closes its connection. If the number of select() covers the own socket,
  -- if it is ready, and the ready clients, accept() gives a descriptor that is not in the set, the
  -- clients that are ready are different, and each of them sent BEGIN or a request of a transaction
  -- that the monitor knows, whose number is not the one that readers.front() reads from an empty list,
  -- then under the invariant, and while numbers last, the turn returns: none of them blocks it. Each has got one reply, in the order of the list, one message of each was
  -- read, no other socket was read, and the invariant holds.
  pub turn-Answered :
      (sockfd fd ready : ℕ) (readset : List ℕ) (s : Round)
      → own_socket sockfd readset + length (ready_clients readset s.server.monitor.clients) ≤ ready
      → is_set fd readset ≡ false
      → Inv s.server.monitor
      → s.server.monitor.next_tid + length (ready_clients readset s.server.monitor.clients)
        < trid_mod
      → AllAsk front_of_empty
          (ready_clients readset s.server.monitor.clients)
          s.server.monitor.status
          s.inbox
      → Returns
          (Answered
            (ready_clients readset s.server.monitor.clients)
            (connected sockfd readset fd s))
          (turn front_of_empty fuel now sockfd (some (readset, ready)) (some fd) s)
  unfolding accept_round accept_client
  turn-Answered sockfd fd ready readset s count fresh v room a =
      let clients = ready_clients readset s.server.monitor.clients in
      rw (turn-serve_counted front_of_empty fuel now sockfd fd ready readset s count fresh)
        (elim (Bool-cases (is_set sockfd readset)) [
          | inl e ↦ rw e (
              serve_each-Answered clients (accept_round fd s)
                (accept_client-Inv fd s.server.monitor v) room a)
          | inr e ↦ rw e (serve_each-Answered clients s v room a)
        ])
