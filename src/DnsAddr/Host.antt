-- ===== src/DnsAddr/Host.antt =====
-- dnsaddr.go: asciiLower, dnsAddrCacheKey, and the tests and splits of /dnsaddr addresses.
use someguy.Prelude.{
  Bool, true, false, not, ◌&&◌, Option, none, some, List, [], ◌∷◌, ◌++◌, any_of, if◌then◌else◌,
}
use someguy.Prelude.Bytes.{Bytes, codes, ascii_lower_byte, trim_suffix}
use someguy.Multiaddr.{Multiaddr, Protocol, Component, dnsaddr, p2p}

-- The byte loop of asciiLower; the copy that it makes on the first capital holds the same bytes.
unfoldable pub ascii_lower : Bytes → Bytes
unfolding ascii_lower_byte
ascii_lower [] = []
ascii_lower (c ∷ s) = ascii_lower_byte c ∷ ascii_lower s

unfoldable pub is_dnsaddr_protocol : Protocol → Bool
is_dnsaddr_protocol dnsaddr = true
is_dnsaddr_protocol p = false

unfoldable pub is_p2p_protocol : Protocol → Bool
is_p2p_protocol p2p = true
is_p2p_protocol p = false

-- len(protos) == 1 && protos[0].Code == ma.P_DNSADDR
unfoldable pub only_dnsaddr : List Protocol → Bool
unfolding is_dnsaddr_protocol
only_dnsaddr (p ∷ []) = is_dnsaddr_protocol p
only_dnsaddr ps = false

module _ {A : Type 0} ⦃m : Multiaddr A⦄ where
  -- The key of an address that begins with /dnsaddr/host and goes on with `rest`.
  unfoldable pub host_key : Bytes → A → Bytes
  unfolding ascii_lower
  host_key host rest =
      (codes "/dnsaddr/" ++ trim_suffix (codes ".") (ascii_lower host))
      ++ (if m.is_nil rest then [] else m.text rest)

  abbrev first_key : A → Option Component → A → Bytes
  first_key addr none rest = m.text addr
  first_key addr (some c) rest =
      if is_dnsaddr_protocol c.protocol then host_key c.value rest else m.text addr

  unfoldable pub dns_addr_cache_key : A → Bytes
  unfolding host_key is_dnsaddr_protocol
  dns_addr_cache_key addr = let (first, rest) = m.split_first addr in first_key addr first rest

  unfoldable pub resolvable_dns_addr : A → Bool
  unfolding only_dnsaddr
  resolvable_dns_addr addr = only_dnsaddr (m.protocols addr)

  unfoldable pub is_dns_addr : A → Bool
  unfolding is_dnsaddr_protocol
  is_dns_addr addr = any_of is_dnsaddr_protocol (m.protocols addr)

  unfoldable pub contains_dns_addr : List A → Bool
  unfolding is_dns_addr
  contains_dns_addr addrs = any_of (λ a. not (m.is_nil a) && is_dns_addr a) addrs

  abbrev peer_of_last : A → A → Option Component → Bytes × A
  peer_of_last addr rest none = ([], addr)
  peer_of_last addr rest (some c) =
      if is_p2p_protocol c.protocol
      then (elim (m.decode_peer c.value) [ none ↦ ([], rest) | some id ↦ (id, rest) ])
      else ([], addr)

  -- The /p2p component of an address, "" if it has none, and the address without it.
  unfoldable pub split_peer_id : A → Bytes × A
  unfolding is_p2p_protocol
  split_peer_id addr = let (rest, last) = m.split_last addr in peer_of_last addr rest last
