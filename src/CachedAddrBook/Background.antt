-- ===== src/CachedAddrBook/Background.antt =====
-- cached_addr_book.go: newCachedAddrBook and its options, the event loop, and the probe loop.
--
-- The events of the loop are an explicit list. A probe run is the choice of what to probe; the
-- outcome of a probe that failed is a call of record_failed_connection, which may come in any order.
use someguy.Prelude.{
  ℕ, ◌*◌, Bool, true, false, not, ◌||◌, Option, none, some, List, [], ◌∷◌, keep, is_empty,
  if◌then◌else◌, ltb,
}
use someguy.Prelude.Bytes.{Bytes}
use someguy.Lru.{Lru}
use someguy.Multiaddr.{Multiaddr}
use someguy.AddrBook.{AddrBook}
use someguy.CachedAddrBook.Types.{
  Limits, PeerState, no_peer_state, CachedAddrBook, Connectedness, max_concurrent_find_peers,
}
use someguy.CachedAddrBook.Probing.{should_probe_peer, record_failed_connection}
use someguy.CachedAddrBook.Addrs.{
  has_valid_connectedness, get_ttl, cap_relay_addr_ttl, replace_peer_addrs,
}

-- AddrBookOption
pub data AddrBookOption (A : Type 0) : Type 0 where
  with_host_peerstore : (Bytes → List A) → AddrBookOption A
  with_allow_private_ips : AddrBookOption A
  with_recently_connected_ttl : ℕ → AddrBookOption A
  with_relay_addr_ttl : ℕ → AddrBookOption A
  with_active_probing : Bool → AddrBookOption A
  with_max_concurrent_find_peers : ℕ → AddrBookOption A

-- none is the error of a cap below 1.
unfoldable pub apply_option :
    {B C A : Type 0} → AddrBookOption A → CachedAddrBook B C A → Option (CachedAddrBook B C A)
apply_option (with_host_peerstore ps) cab = some (record cab { host_peerstore = some ps })
apply_option with_allow_private_ips cab = some (record cab { allow_private_ips = true })
apply_option (with_recently_connected_ttl ttl) cab =
    some (record cab { recently_connected_ttl = ttl })
apply_option (with_relay_addr_ttl ttl) cab = some (record cab { relay_addr_ttl = ttl })
apply_option (with_active_probing enabled) cab = some (record cab { probing_enabled = enabled })
apply_option (with_max_concurrent_find_peers n) cab =
    if ltb n 1 then none else some (record cab { find_peer_slots = n; slots_held = 0 })

unfoldable pub apply_options :
    {B C A : Type 0}
    → List (AddrBookOption A)
    → CachedAddrBook B C A
    → Option (CachedAddrBook B C A)
unfolding apply_option
apply_options [] cab = some cab
apply_options (o ∷ os) cab = elim (apply_option o cab) [
  | none ↦ none
  | some cab' ↦ apply_options os cab'
]

-- The two events that the loop subscribes to, the ticker, and the end of a probe run.
pub data Event (A E : Type 0) : Type 0 where
  identified : Bytes → Connectedness → Option E → List A → List (Bool × A) → Event A E
  connectedness_changed : Bytes → Connectedness → Event A E
  probe_tick : Event A E
  probe_finished : Event A E

module _ {B C A E : Type 0} ⦃m : Multiaddr A⦄ (limits : Limits) (book : AddrBook B A E)
    (cache : Lru C Bytes PeerState) where
  -- newCachedAddrBook: the defaults, then the options in order.
  unfoldable pub new_cached_addr_book :
      B → C → List (AddrBookOption A) → Option (CachedAddrBook B C A)
  unfolding apply_options
  new_cached_addr_book empty_book empty_cache opts = apply_options opts (record {
    addr_book = empty_book;
    host_peerstore = none;
    peer_cache = empty_cache;
    probing_enabled = false;
    is_probing = false;
    allow_private_ips = false;
    recently_connected_ttl = limits.provide_validity;
    relay_addr_ttl = 2 * limits.reservation_ttl;
    find_peer_slots = max_concurrent_find_peers;
    slots_held = 0;
    lookups_rejected = 0;
    peer_state_size = 0;
  })

  abbrev state_or_new : Option PeerState → PeerState
  state_or_new none = no_peer_state
  state_or_new (some st) = st

  -- A connection's remote address, unless the connection is inbound.
  abbrev outbound : List (Bool × A) → List A
  outbound [] = []
  outbound ((inbound, a) ∷ cs) = let rest = outbound cs in if inbound then rest else a ∷ rest

  unfoldable pub on_identified :
      ℕ
      → Bytes
      → Connectedness
      → Option E
      → List A
      → List (Bool × A)
      → CachedAddrBook B C A
      → CachedAddrBook B C A
  unfolding replace_peer_addrs get_ttl
  on_identified now p conn signed listen_addrs conns cab =
      let st = state_or_new (cache.peek cab.peer_cache p) in
      let peers =
        cache.add cab.peer_cache p
          (record st { last_conn_time = now; last_failed_conn_time = 0; connect_failures = 0 }) in
      let seen = record cab { peer_cache = peers; peer_state_size = cache.len peers } in
      replace_peer_addrs limits book now p signed listen_addrs (outbound conns)
        (get_ttl limits book conn seen) seen

  -- One round of the loop; the second result says whether a probe run starts.
  unfoldable pub on_event : ℕ → Event A E → CachedAddrBook B C A → CachedAddrBook B C A × Bool
  unfolding on_identified
  on_event now (identified p conn signed listen_addrs conns) cab =
      (on_identified now p conn signed listen_addrs conns cab, false)
  on_event now (connectedness_changed p conn) cab =
      if has_valid_connectedness conn then (cab, false) else (
        cap_relay_addr_ttl limits book now p (record cab {
          addr_book =
              book.update_addrs cab.addr_book now p limits.connected_addr_ttl
                cab.recently_connected_ttl;
        }),
        false,
      )
  on_event now probe_tick cab =
      if not cab.probing_enabled || cab.is_probing
      then (cab, false)
      else (record cab { is_probing = true }, true)
  on_event now probe_finished cab = (record cab { is_probing = false }, false)

  -- The addresses with which probePeers dials a peer, if it dials it.
  unfoldable pub probe_addrs :
      ℕ → (Bytes → Connectedness) → CachedAddrBook B C A → Bytes → Option (List A)
  unfolding should_probe_peer
  probe_addrs now net cab p =
      if has_valid_connectedness (net p) || not (should_probe_peer limits book cache now p cab)
      then none
      else let addrs = book.addrs cab.addr_book now p in
        let dialled = if cab.allow_private_ips then addrs else keep m.is_public addrs in
        if is_empty dialled then none else some dialled

  -- probePeers with the connections attempted one after the other; `dial` says which succeed.
  unfoldable pub probe_each :
      ℕ
      → (Bytes → Connectedness)
      → (Bytes → List A → Bool)
      → List Bytes
      → CachedAddrBook B C A
      → CachedAddrBook B C A
  unfolding probe_addrs record_failed_connection
  probe_each now net dial [] cab = cab
  probe_each now net dial (p ∷ ps) cab =
      probe_each now net dial ps (elim (probe_addrs now net cab p) [
        | none ↦ cab
        | some addrs ↦
            if dial p addrs then cab else record_failed_connection limits book cache now p cab
      ])

  unfoldable pub probe_peers :
      ℕ
      → (Bytes → Connectedness)
      → (Bytes → List A → Bool)
      → CachedAddrBook B C A
      → CachedAddrBook B C A
  unfolding probe_each
  probe_peers now net dial cab =
      record (probe_each now net dial (book.peers_with_addrs cab.addr_book now) cab) {
        is_probing = false;
      }
