-- ===== src/CachedAddrBook/Addrs.antt =====
-- cached_addr_book.go: the addresses that the book takes in and serves.
use someguy.Prelude.{
  ℕ, Bool, true, false, ◌&&◌, ◌||◌, Option, none, some, List, keep, is_empty, if◌then◌else◌,
}
use someguy.Prelude.Bytes.{Bytes}
use someguy.Multiaddr.{Multiaddr}
use someguy.Addrs.{split_relay_addrs}
use someguy.AddrBook.{AddrBook}
use someguy.CachedAddrBook.Types.{Limits, CachedAddrBook, Connectedness, connected, limited}

unfoldable pub has_valid_connectedness : Connectedness → Bool
has_valid_connectedness connected = true
has_valid_connectedness limited = true
has_valid_connectedness c = false

-- What ConsumePeerRecord leaves, and whether the record was accepted.
unfoldable pub consume_signed : {B A E : Type 0} → AddrBook B A E → ℕ → Option E → ℕ → B → B × Bool
consume_signed book now none ttl b = (b, false)
consume_signed book now (some e) ttl b =
    if book.is_certified then book.consume_peer_record b now e ttl else (b, false)

module _ {B C A E : Type 0} ⦃m : Multiaddr A⦄ (limits : Limits) (book : AddrBook B A E) where
  unfoldable pub get_ttl : Connectedness → CachedAddrBook B C A → ℕ
  get_ttl c cab =
      if has_valid_connectedness c then limits.connected_addr_ttl else cab.recently_connected_ttl

  unfoldable pub cap_relay_addr_ttl : ℕ → Bytes → CachedAddrBook B C A → CachedAddrBook B C A
  cap_relay_addr_ttl now p cab =
      let relay = (split_relay_addrs (book.addrs cab.addr_book now p)).1 in
      if is_empty relay
      then cab
      else record cab { addr_book = book.set_addrs cab.addr_book now p relay cab.relay_addr_ttl }

  unfoldable pub replace_peer_addrs :
      ℕ → Bytes → Option E → List A → List A → ℕ → CachedAddrBook B C A → CachedAddrBook B C A
  unfolding cap_relay_addr_ttl consume_signed
  replace_peer_addrs now p signed listen_addrs conn_addrs ttl cab =
      if (elim signed [ none ↦ true | some e ↦ false ])
        && is_empty listen_addrs
        && is_empty conn_addrs
      then cab
      else let (b, accepted) =
          consume_signed book now signed ttl (book.clear_addrs cab.addr_book p) in
        let b' = if accepted then b else book.add_addrs b now p listen_addrs ttl in
        let capped = cap_relay_addr_ttl now p (record cab { addr_book = b' }) in
        if is_empty conn_addrs then capped else record capped {
          addr_book = book.add_addrs capped.addr_book now p conn_addrs limits.connected_addr_ttl;
        }

  unfoldable pub get_cached_addrs : ℕ → Bytes → CachedAddrBook B C A → List A
  get_cached_addrs now p cab =
      let cached = book.addrs cab.addr_book now p in
      if is_empty cached
      then (elim cab.host_peerstore [ none ↦ cached | some host_addrs ↦ host_addrs p ])
      else cached

  -- The loop that skips private addresses, unless they are allowed.
  unfoldable pub cacheable : CachedAddrBook B C A → List A → List A
  cacheable cab addrs = keep (λ a. cab.allow_private_ips || m.is_public a) addrs

  unfoldable pub cache_addrs : ℕ → Bytes → List A → CachedAddrBook B C A → CachedAddrBook B C A
  unfolding cacheable
  cache_addrs now p addrs cab =
      let maddrs = cacheable cab addrs in
      if is_empty addrs || is_empty maddrs
      then cab
      else let (direct, relay) = split_relay_addrs maddrs in
        let b = book.add_addrs cab.addr_book now p direct cab.recently_connected_ttl in
        record cab { addr_book = book.add_addrs b now p relay cab.relay_addr_ttl }
