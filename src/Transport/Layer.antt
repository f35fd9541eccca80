-- ===== src/Transport/Layer.antt =====
-- src/Transport.cc: the class TransportLayer over the calls of a network. A message is its memory.
use system_t.Base.{ℕ, ◌%◌, ◌^◌, Option, none, some, List, [], ◌∷◌, ◌++◌, if◌then◌else◌}
use system_t.Outcome.{Outcome, returns, exits, undefined, ◌>>=◌}
use system_t.Disk.{length}
use system_t.Transport.Image.{trq_size}
use system_t.Transaction.Calls.{drop}
use system_t.Transport.Network.{SockaddrIn, af_inet, converted, malformed, unsupported, Network}

-- The members; a descriptor of -1 is `none`.
pub record TransportLayer : Type 0 where
  pub sockfd : Option ℕ
  pub serveraddr : SockaddrIn
  pub clientaddr : SockaddrIn

abbrev zero_address : SockaddrIn
zero_address = record { family = 0; port = 0; addr = 0 }

-- The constructor.
unfoldable pub new_layer : TransportLayer
new_layer = record { sockfd = none; serveraddr = zero_address; clientaddr = zero_address }

-- htons takes the low 16 bits of the port.
abbrev pub port_of : ℕ → ℕ
port_of port = port % 2 ^ 16

-- h->h_addr_list[0]
unfoldable pub first_address : Option (List (List ℕ)) → Outcome (List ℕ)
first_address none = undefined
first_address (some []) = undefined
first_address (some (bytes ∷ rest)) = returns bytes

module _ {W : Type 0} (net : Network W) where
  unfoldable pub create_socket : TransportLayer → W → Outcome (ℕ × TransportLayer × W)
  create_socket t w =
      let (answer, w') = net.socket w in
      elim answer [ none ↦ exits | some fd ↦ returns (fd, record t { sockfd = some fd }, w') ]

  unfoldable pub bind_socket : ℕ → ℕ → TransportLayer → W → Outcome (TransportLayer × W)
  bind_socket sock port t w =
      let t' : TransportLayer = record t {
        serveraddr = record { family = af_inet; port = port_of port; addr = 0 };
      } in
      let (done, w') = net.bind sock t'.serveraddr w in if done then returns (t', w') else exits

  unfoldable pub listen_socket : ℕ → ℕ → W → Outcome W
  listen_socket sock qlen w =
      let (done, w') = net.listen sock qlen w in if done then returns w' else exits

  unfoldable pub accept_socket : ℕ → TransportLayer → W → Outcome (ℕ × TransportLayer × W)
  accept_socket sock t w =
      let (answer, w') = net.accept sock w in
      elim answer [
        | none ↦ exits
        | some (connfd, address) ↦ returns (connfd, record t { clientaddr = address }, w')
      ]

  unfoldable pub close_socket : ℕ → W → W
  close_socket sock w = net.close sock w

  -- The bytes that have come overwrite the memory of the message from its start.
  unfoldable pub read_socket : ℕ → List ℕ → W → Outcome (ℕ × List ℕ × W)
  read_socket sock rq w =
      let (answer, w') = net.recv sock trq_size w in
      elim answer [
        | none ↦ exits
        | some bytes ↦ returns (length bytes, bytes ++ drop (length bytes) rq, w')
      ]

  unfoldable pub write_socket : ℕ → List ℕ → W → Outcome W
  write_socket sock rq w =
      let (answer, w') = net.send sock rq w in elim answer [ none ↦ exits | some sent ↦ returns w' ]

  -- The address of the host is read as text.
  unfoldable pub set_address : List ℕ → SockaddrIn → Outcome SockaddrIn
  set_address bytes address = elim (net.inet_pton bytes) [
    | converted a ↦ returns (record address { addr = a })
    | malformed ↦ returns address
    | unsupported ↦ exits
  ]

  unfoldable pub connect_socket : ℕ → List ℕ → ℕ → TransportLayer → W → Outcome (TransportLayer × W)
  unfolding set_address first_address
  connect_socket sock host port t w =
      let address : SockaddrIn = record (t.clientaddr) { family = af_inet; port = port_of port } in
      let (h, w₁) = net.gethostbyname host w in
      if h.failed then exits else (do
        bytes ← first_address h.addresses
        address' ← set_address bytes address
        (let (done, w₂) = net.connect sock address' w₁ in
            if done then returns (record t { clientaddr = address' }, w₂) else exits))
