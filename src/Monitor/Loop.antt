-- ===== src/Monitor/Loop.antt =====
-- The loop of start of src/Monitor.cc over the clients, beside the loop without its early exit.
use system_t.Base.{
  ℕ, ◌+◌, ◌-◌, ◌≤◌, ◌≡◌, refl, sym, ap, ◌∙◌, inl, inr, true, false, some, List, [], ◌∷◌, arith,
  ◌==◌, if◌then◌else◌, Bool-cases,
}
use system_t.Outcome.{Outcome, returns, exits, undefined, running, ◌>>=◌}
use system_t.Disk.{length}
use system_t.Monitor.Server.{
  is_set, Round, serve_client, serve_clients, accept_client, accept_round, turn,
}

-- The clients that are ready, in the order of the list.
abbrev pub ready_clients : List ℕ → List ℕ → List ℕ
ready_clients readset [] = []
ready_clients readset (p ∷ ps) =
    let rest = ready_clients readset ps in if is_set p readset then p ∷ rest else rest

-- Each of them is served.
unfoldable pub serve_each : ℕ → ℕ → ℕ → List ℕ → Round → Outcome Round
serve_each front_of_empty fuel now [] s = returns s
serve_each front_of_empty fuel now (p ∷ ps) s = do
  s' ← serve_client front_of_empty fuel now p s
  serve_each front_of_empty fuel now ps s'

bind-ext :
    {A B : Type 0} (o : Outcome A) (f g : A → Outcome B)
    → ((a : A) → f a ≡ g a)
    → (o >>= f) ≡ (o >>= g)
bind-ext (returns a) f g h = h a
bind-ext exits f g h = refl
bind-ext undefined f g h = refl
bind-ext running f g h = refl

module _ (front_of_empty fuel now : ℕ) (readset : List ℕ) where
  last_served :
      (ps : List ℕ) (left : ℕ) (s : Round)
      → length ps ≤ left
      → (left == 0) ≡ true
      → serve_each front_of_empty fuel now ps s ≡ returns s
  unfolding serve_each
  last_served [] left s h e = refl
  last_served (p ∷ ps) left s h e = absurd (ground arith)

  -- The early exit of the loop is only an optimisation: if no more clients are ready than select()
  -- has counted, the loop serves each of them, in the order of the list.
  pub serve_clients-serve_each :
      (clients : List ℕ) (ready : ℕ) (s : Round)
      → length (ready_clients readset clients) ≤ ready
      → serve_clients front_of_empty fuel now readset clients ready s
        ≡ serve_each front_of_empty fuel now (ready_clients readset clients) s
  unfolding serve_clients serve_each
  serve_clients-serve_each [] ready s h = refl
  serve_clients-serve_each (p ∷ ps) ready s h = elim (Bool-cases (is_set p readset)) [
    | inl e ↦
        let left : length (ready_clients readset ps) ≤ ready - 1 = ground arith in
        rw (e, serve_clients)
          (bind-ext (serve_client front_of_empty fuel now p s) _ _ (λ s'.
            elim (Bool-cases (ready - 1 == 0)) [
              | inl z ↦ rw z (sym (last_served (ready_clients readset ps) (ready - 1) s' left z))
              | inr z ↦ rw z (serve_clients-serve_each ps (ready - 1) s' left)
            ]))
    | inr e ↦
        rw (e, serve_clients) (serve_clients-serve_each ps ready s (let k = h in ground arith))
  ]

-- One for the socket of the monitor, if it is ready.
abbrev pub own_socket : ℕ → List ℕ → ℕ
own_socket sockfd readset = (if is_set sockfd readset then 1 else 0)

-- A new connection is taken first.
abbrev pub connected : ℕ → List ℕ → ℕ → Round → Round
connected sockfd readset fd s = (if is_set sockfd readset then accept_round fd s else s)

-- Where no more entries of the list are ready than select() has counted, the early exit of the loop
-- leaves nobody out.
pub turn-serve_counted :
    (front_of_empty fuel now sockfd fd ready : ℕ) (readset : List ℕ) (s : Round)
    → own_socket sockfd readset + length (ready_clients readset s.server.monitor.clients) ≤ ready
    → is_set fd readset ≡ false
    → turn front_of_empty fuel now sockfd (some (readset, ready)) (some fd) s
      ≡ serve_each front_of_empty fuel now
          (ready_clients readset s.server.monitor.clients)
          (connected sockfd readset fd s)
unfolding turn accept_round accept_client
turn-serve_counted front_of_empty fuel now sockfd fd ready readset s count fresh =
    let clients = s.server.monitor.clients in
    let same : ready_clients readset (fd ∷ clients) ≡ ready_clients readset clients =
      rw fresh refl in
    elim (Bool-cases (is_set sockfd readset)) [
      | inl e ↦
          let s' = accept_round fd s in
          let left : length (ready_clients readset clients) ≤ ready - 1 = ground arith in
          rw e (elim (Bool-cases (ready - 1 == 0)) [
            | inl z ↦ rw z (
                sym (
                  last_served front_of_empty fuel now readset (ready_clients readset clients)
                    (ready - 1) s' left z))
            | inr z ↦ rw z (
                serve_clients-serve_each front_of_empty fuel now readset (fd ∷ clients) (ready - 1)
                  s' (rw fresh left)
                ∙ ap (λ ps. serve_each front_of_empty fuel now ps s') same)
          ])
      | inr e ↦
          rw e (
            serve_clients-serve_each front_of_empty fuel now readset clients ready s (ground arith))
    ]
