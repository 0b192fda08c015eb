-- ===== src/Multiaddr.antt =====
-- The interface of go-multiaddr and of its net package manet, as far as server_routers.go,
-- dnsaddr.go and cached_addr_book.go call them. The libraries are not part of the repository: the
-- type of addresses and these calls are parameters of every model that handles addresses.
use someguy.Prelude.{ℕ, Option, Bool, List, ◌≡◌}
use someguy.Prelude.Bytes.{Bytes}

-- The protocols that the program tells apart by their codes (ma.P_IP4, ma.P_CIRCUIT, ...).
pub data Protocol : Type 0 where
  ip4 ip6 dns dns4 dns6 dnsaddr p2p circuit : Protocol
  other_protocol : ℕ → Protocol

-- One component of an address: its protocol and its value as a text.
pub record Component : Type 0 where
  pub protocol : Protocol
  pub value : Bytes

pub record Multiaddr (A : Type 0) : Type 0 where
  -- addr.Protocols(), the codes
  pub protocols : A → List Protocol
  -- addr.Bytes() and addr.String()
  pub encoded : A → Bytes
  pub text : A → Bytes
  -- addr.ValueForProtocol(code) returns no error
  pub has_value : Protocol → A → Bool
  -- len(addr) == 0, which a nil address is too
  pub is_nil : A → Bool
  -- manet.IsPublicAddr and manet.IsPrivateAddr
  pub is_public : A → Bool
  pub is_private : A → Bool
  -- ma.SplitFirst and ma.SplitLast, none for a nil component
  pub split_first : A → Option Component × A
  pub split_last : A → A × Option Component
  -- peer.Decode, none for an error
  pub decode_peer : Bytes → Option Bytes

-- The encoding determines the address: multiaddrs are compared by their bytes.
pub record EncodesUniquely (A : Type 0) ⦃m : Multiaddr A⦄ : Type 0 where
  pub injective : (a b : A) → m.encoded a ≡ m.encoded b → a ≡ b
