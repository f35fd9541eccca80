-- ===== src/Transport/Network.antt =====
-- The socket calls of the operating system that src/Transport.cc uses, as an interface: `W` is the
-- state of the network. A call that answers -1 gives `none` or `false`.
use system_t.Base.{ℕ, Bool, Option, List}

-- struct sockaddr_in; the port and the address are the numbers that htons and htonl put there.
pub record SockaddrIn : Type 0 where
  pub family : ℕ
  pub port : ℕ
  pub addr : ℕ

abbrev pub af_inet : ℕ
af_inet = 2

-- The answers 1, 0 and -1 of inet_pton, which reads an address in text form.
pub data Pton : Type 0 where
  converted : ℕ → Pton
  malformed : Pton
  unsupported : Pton

-- The answer of gethostbyname: is h_errno set, and the h_addr_list, whose addresses are the bytes of
-- a number and no text; `none` is a null pointer.
pub record Lookup : Type 0 where
  pub failed : Bool
  pub addresses : Option (List (List ℕ))

pub record Network (W : Type 0) : Type 0 where
  pub socket : W → Option ℕ × W
  pub bind : ℕ → SockaddrIn → W → Bool × W
  pub listen : ℕ → ℕ → W → Bool × W
  pub accept : ℕ → W → Option (ℕ × SockaddrIn) × W
  pub close : ℕ → W → W
  pub recv : ℕ → ℕ → W → Option (List ℕ) × W
  pub send : ℕ → List ℕ → W → Option ℕ × W
  pub connect : ℕ → SockaddrIn → W → Bool × W
  pub gethostbyname : List ℕ → W → Lookup × W
  pub inet_pton : List ℕ → Pton
