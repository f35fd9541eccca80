-- ===== src/Transport/Connecting.antt =====
-- connectSocket of src/Transport.cc, which reads the address that gethostbyname gives as text.
use system_t.Base.{ℕ, ◌≡◌, ap, ◌∙◌, Bool, false, some, List, ◌∷◌, if◌then◌else◌}
use system_t.Outcome.{Outcome, returns, exits, ◌>>=◌}
use system_t.Transport.Network.{SockaddrIn, af_inet, malformed, Lookup, Network}
use system_t.Transport.Layer.{
  TransportLayer, new_layer, port_of, set_address, first_address, connect_socket,
}

-- The name of the host is found, and its address is not text.
pub record IsFound {W : Type 0} (net : Network W) (host : List ℕ) (w w₁ : W) : Type 0 where
  pub bytes : List ℕ
  pub others : List (List ℕ)
  pub found :
      net.gethostbyname host w ≡ (record { failed = false; addresses = some (bytes ∷ others) }, w₁)
  pub no_text : net.inet_pton bytes ≡ malformed

-- The same port on the host with the address 0.
abbrev pub any_host : ℕ → SockaddrIn
any_host port = record { family = af_inet; port = port_of port; addr = 0 }

-- An object that has not accepted a connection connects to the address 0, whatever the host: the
-- answer 0 of inet_pton, which says that nothing was read, is not looked at.
pub connect_socket-ignores_host :
    {W : Type 0} (net : Network W) (sock port : ℕ) (host : List ℕ) (w w₁ w₂ : W) (done : Bool)
    → IsFound net host w w₁
    → net.connect sock (any_host port) w₁ ≡ (done, w₂)
    → connect_socket net sock host port new_layer w
      ≡ (if done then returns (record new_layer { clientaddr = any_host port }, w₂) else exits)
unfolding connect_socket new_layer
connect_socket-ignores_host {W} net sock port host w w₁ w₂ done f answer =
    ap after_lookup f.found
    ∙ rw (f.no_text, set_address)
        (ap
          (λ (r : Bool × W).
            if r.0 then returns (record new_layer { clientaddr = any_host port }, r.1) else exits)
          answer)
  where
    after_lookup : Lookup × W → Outcome (TransportLayer × W)
    after_lookup (h, w') = if h.failed then exits else (do
      bytes ← first_address h.addresses
      address ← set_address net bytes (any_host port)
      (let (done, w'') = net.connect sock address w' in
          if done then returns (record new_layer { clientaddr = address }, w'') else exits))
