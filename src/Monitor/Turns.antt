-- ===== src/Monitor/Turns.antt =====
-- The count of select() and the early exit of the loop of start of src/Monitor.cc.
use system_t.Base.{
  ℕ, ◌+◌, ◌≤◌, ◌≡◌, refl, inl, inr, true, false, some, List, [], ◌∷◌, arith, ◌==◌, Bool-cases,
}
use system_t.Disk.{length}
use system_t.Monitor.Locks.{remove}
use system_t.Monitor.Server.{is_set, Round, turn}
use system_t.Monitor.Watched.{is_set-remove}
use system_t.Monitor.Loop.{ready_clients, serve_each, own_socket, connected, turn-serve_counted}

-- No descriptor stands twice in the list.
abbrev pub IsDistinct : List ℕ → Type 0
IsDistinct [] = Unit
IsDistinct (p ∷ ps) = (is_set p ps ≡ false) × IsDistinct ps

abbrev AllSet : List ℕ → List ℕ → Type 0
AllSet readset [] = Unit
AllSet readset (p ∷ ps) = (is_set p readset ≡ true) × AllSet readset ps

length-remove_le : (p : ℕ) (fds : List ℕ) → length (remove p fds) ≤ length fds
unfolding remove
length-remove_le p [] = omega arith
length-remove_le p (fd ∷ fds) = ground (arith, length-remove_le p fds)

length-remove :
    (p : ℕ) (fds : List ℕ) → is_set p fds ≡ true → length (remove p fds) + 1 ≤ length fds
unfolding remove
length-remove p [] e = cc
length-remove p (fd ∷ fds) e = ground (arith, length-remove p fds, length-remove_le p fds)

AllSet-remove :
    (p : ℕ) (fds ps : List ℕ) → is_set p ps ≡ false → AllSet fds ps → AllSet (remove p fds) ps
AllSet-remove p fds [] n k = tt
AllSet-remove p fds (q ∷ qs) n k = elim (Bool-cases (q == p)) [
  | inl e ↦ absurd (ground arith)
  | inr e ↦ (
    (let set = k.0 in ground (arith, is_set-remove p q fds)),
    AllSet-remove p fds qs (ground arith) k.1,
  )
]

-- A list of different descriptors of a set is not longer than the set.
IsDistinct-fits : (ps fds : List ℕ) → IsDistinct ps → AllSet fds ps → length ps ≤ length fds
IsDistinct-fits [] fds d k = omega arith
IsDistinct-fits (p ∷ ps) fds d k =
    let shorter = length-remove p fds k.0 in
    let rest = IsDistinct-fits ps (remove p fds) d.1 (AllSet-remove p fds ps d.0 k.1) in omega arith

module _ (readset : List ℕ) where
  ready_clients-AllSet : (ps : List ℕ) → AllSet readset (ready_clients readset ps)
  ready_clients-AllSet [] = tt
  ready_clients-AllSet (p ∷ ps) = elim (Bool-cases (is_set p readset)) [
    | inl e ↦ rw e (e, ready_clients-AllSet ps)
    | inr e ↦ rw e (ready_clients-AllSet ps)
  ]

  is_set-ready_clients :
      (q : ℕ) (ps : List ℕ) → is_set q ps ≡ false → is_set q (ready_clients readset ps) ≡ false
  is_set-ready_clients q [] n = refl
  is_set-ready_clients q (p ∷ ps) n = ground (arith, is_set-ready_clients q ps)

  ready_clients-IsDistinct : (ps : List ℕ) → IsDistinct ps → IsDistinct (ready_clients readset ps)
  ready_clients-IsDistinct [] d = tt
  ready_clients-IsDistinct (p ∷ ps) d = elim (Bool-cases (is_set p readset)) [
    | inl e ↦ rw e (is_set-ready_clients p ps d.0, ready_clients-IsDistinct ps d.1)
    | inr e ↦ rw e (ready_clients-IsDistinct ps d.1)
  ]

  -- So select() counts at least the sockets that are served.
  counted :
      (sockfd : ℕ) (clients : List ℕ)
      → IsDistinct clients
      → is_set sockfd clients ≡ false
      → own_socket sockfd readset + length (ready_clients readset clients) ≤ length readset
  counted sockfd clients d own = elim (Bool-cases (is_set sockfd readset)) [
    | inl e ↦
        let fits =
          IsDistinct-fits (sockfd ∷ ready_clients readset clients) readset
            (is_set-ready_clients sockfd clients own, ready_clients-IsDistinct clients d)
            (e, ready_clients-AllSet clients) in
        rw e (omega arith)
    | inr e ↦
        let fits =
          IsDistinct-fits (ready_clients readset clients) readset
            (ready_clients-IsDistinct clients d) (ready_clients-AllSet clients) in
        rw e (omega arith)
  ]

-- A turn of the loop, if select() counts the descriptors of its set, no descriptor stands twice in the
-- list of clients, the monitor's own socket is not in it, and accept() gives a descriptor that is not
-- in the set: a connection is accepted if one waits, and then each client that is ready is served, in
-- the order of the list, and no other. The early exit is only an optimisation.
pub turn-serve_each :
    (front_of_empty fuel now sockfd fd ready : ℕ) (readset : List ℕ) (s : Round)
    → ready ≡ length readset
    → IsDistinct s.server.monitor.clients
    → is_set sockfd s.server.monitor.clients ≡ false
    → is_set fd readset ≡ false
    → turn front_of_empty fuel now sockfd (some (readset, ready)) (some fd) s
      ≡ serve_each front_of_empty fuel now
          (ready_clients readset s.server.monitor.clients)
          (connected sockfd readset fd s)
turn-serve_each front_of_empty fuel now sockfd fd ready readset s count distinct own fresh =
    turn-serve_counted front_of_empty fuel now sockfd fd ready readset s
      (let c = counted readset sockfd s.server.monitor.clients distinct own in omega arith) fresh
