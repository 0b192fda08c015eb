-- ===== src/Samples.antt =====
-- Concrete values for the parameters of the models: small libraries that keep the documented laws.
-- They stand for go-multiaddr, golang-lru, madns and pstoremem in the examples.
pub mod Caches
pub mod Books
pub mod Services
pub mod Servers
use someguy.Prelude.{
  ℕ, ◌+◌, ◌<◌, ◌≤◌, ◌≡◌, refl, Bool, true, false, Option, none, some, List, [], ◌∷◌, ◌++◌, map,
  is_empty, if◌then◌else◌, ◌==◌, arith,
}
use someguy.Prelude.Bytes.{Bytes}
use someguy.Multiaddr.{
  Multiaddr, EncodesUniquely, Protocol, Component, ip4, dns, dnsaddr, p2p, circuit, other_protocol,
}
use someguy.DnsAddr.Types.{CacheEntry, Reply, resolved, failed, Dns, DnsLaws, World}

-- A byte is a component, and an address is the list of its components.
abbrev byte_protocol : ℕ → Protocol
byte_protocol b =
    if b == 4
    then ip4
    else if b == 53
    then dns
    else if b == 56
    then dnsaddr
    else if b == 165
    then p2p
    else if b == 90
    then circuit
    else other_protocol b

abbrev byte_component : ℕ → Component
byte_component b = record { protocol = byte_protocol b; value = b ∷ [] }

abbrev has_byte : ℕ → Bytes → Bool
has_byte b [] = false
has_byte b (c ∷ cs) = if c == b then true else has_byte b cs

abbrev bytes_split_first : Bytes → Option Component × Bytes
bytes_split_first [] = (none, [])
bytes_split_first (b ∷ bs) = (some (byte_component b), bs)

abbrev bytes_split_last : Bytes → Bytes × Option Component
bytes_split_last [] = ([], none)
bytes_split_last (b ∷ []) = ([], some (byte_component b))
bytes_split_last (b ∷ c ∷ bs) = let (rest, last) = bytes_split_last (c ∷ bs) in (b ∷ rest, last)

-- Addresses with the byte 10 in them are private.
instance abbrev pub bytes_multiaddr : Multiaddr Bytes
bytes_multiaddr = record {
  protocols = map byte_protocol;
  encoded = λ a. a;
  text = λ a. a;
  has_value = λ p a. has_byte 90 a;
  is_nil = is_empty;
  is_public = λ a. if has_byte 10 a then false else true;
  is_private = has_byte 10;
  split_first = bytes_split_first;
  split_last = bytes_split_last;
  decode_peer = λ v. some v;
}

pub bytes_multiaddr-EncodesUniquely : EncodesUniquely Bytes
bytes_multiaddr-EncodesUniquely = record { injective = λ a b e. e }

-- A name server that knows one name, at two addresses, and answers within a millisecond.
abbrev pub sample_dns : Dns Bytes
sample_dns = record {
  resolve = λ a t. record { answer = resolved ((4 ∷ 1 ∷ []) ∷ (4 ∷ 2 ∷ []) ∷ []); took = 1000000 };
  in_flight = λ k t. none;
}

pub sample_dns-laws : DnsLaws Bytes sample_dns
sample_dns-laws = record {
  resolve_timely = λ a t. omega arith;
  in_flight_timely = λ k t e d h. ground arith;
}

abbrev pub sample_world : World (List (Bytes × CacheEntry Bytes))
sample_world = record {
  now = 5;
  cache = [];
  hits = 0;
  resolves = 0;
  empties = 0;
  failures = 0;
  throttles = 0;
}
