-- ===== src/DnsAddr/Router.antt =====
-- dnsAddrRouter of server_routers.go. An iterator is the list of the results that it yields, and
-- the state goes through them in the order in which the handler takes them; newDNSAddrBudget gives
-- the response its lookups.
use someguy.Prelude.{Option, none, some, List, [], ◌∷◌, true, false, if◌then◌else◌}
use someguy.Prelude.Bytes.{Bytes}
use someguy.Multiaddr.{Multiaddr}
use someguy.Addrs.{sorted_addrs, filter_private_multiaddr}
use someguy.Lru.{Lru}
use someguy.Context.{Ctx}
use someguy.Records.{
  Schema, schema_peer, schema_bitswap, PeerRecord, BitswapRecord, Record, peer_record,
  bitswap_record, get_schema, Result,
}
use someguy.DnsAddr.Mode.{
  DnsAddrResolution, AddrFilter, DnsAddrAction, skip, replace, append, action,
}
use someguy.DnsAddr.Host.{contains_dns_addr}
use someguy.DnsAddr.Types.{CacheEntry, Dns, World, State, max_lookups_per_request}
use someguy.DnsAddr.Expand.{resolve_addrs}

-- newDNSAddrBudget
unfoldable pub new_budget : {C : Type 0} → World C → State C
new_budget w = record { room = 0; lookups = max_lookups_per_request; world = w }

module _ {A C : Type 0} ⦃m : Multiaddr A⦄ (cache : Lru C Bytes (CacheEntry A)) (dns : Dns A)
    (mode : DnsAddrResolution) (filter : Option AddrFilter) (ctx : Ctx) where
  abbrev pub resolve_with : DnsAddrAction → Bytes → List A → State C → List A × State C
  resolve_with skip pid addrs s = (sorted_addrs addrs, s)
  resolve_with replace pid addrs s =
      let (out, s') = resolve_addrs cache dns ctx pid false addrs s in
      (filter_private_multiaddr out, s')
  resolve_with append pid addrs s =
      let (out, s') = resolve_addrs cache dns ctx pid true addrs s in
      (filter_private_multiaddr out, s')

  -- resolveRecordAddrs
  unfoldable pub resolve_record_addrs : Option Bytes → List A → State C → List A × State C
  resolve_record_addrs none addrs s = (sorted_addrs addrs, s)
  resolve_record_addrs (some pid) addrs s =
      if contains_dns_addr addrs
      then resolve_with (action mode filter) pid addrs s
      else (sorted_addrs addrs, s)

  abbrev resolve_peer : PeerRecord A → State C → PeerRecord A × State C
  resolve_peer r s =
      let (addrs', s') = resolve_record_addrs r.id r.addrs s in (record r { addrs = addrs' }, s')

  abbrev resolve_bitswap : BitswapRecord A → State C → BitswapRecord A × State C
  resolve_bitswap r s =
      let (addrs', s') = resolve_record_addrs r.id r.addrs s in (record r { addrs = addrs' }, s')

  -- The switch over the schema, with the type assertion of each case.
  unfoldable pub resolve_schema : Schema → Record A → State C → Record A × State C
  unfolding resolve_record_addrs
  resolve_schema schema_peer (peer_record r) s =
      let (r', s') = resolve_peer r s in (peer_record r', s')
  resolve_schema schema_bitswap (bitswap_record r) s =
      let (r', s') = resolve_bitswap r s in (bitswap_record r', s')
  resolve_schema schema v s = (v, s)

  -- The function that FindProviders maps over the results.
  unfoldable pub resolve_result : Result (Record A) → State C → Result (Record A) × State C
  unfolding resolve_schema
  resolve_result v s = elim v.err [
    | some e ↦ (v, s)
    | none ↦ elim v.val [
      | none ↦ (v, s)
      | some r ↦
          let (r', s') = resolve_schema (get_schema r) r s in (record v { val = some r' }, s')
    ]
  ]

  unfoldable pub resolve_results :
      List (Result (Record A)) → State C → List (Result (Record A)) × State C
  unfolding resolve_result
  resolve_results [] s = ([], s)
  resolve_results (v ∷ vs) s =
      let (v', s') = resolve_result v s in let (vs', s'') = resolve_results vs s' in (v' ∷ vs', s'')

  -- dnsAddrRouter.FindProviders on the results of the wrapped router.
  unfoldable pub find_providers :
      List (Result (Record A)) → World C → List (Result (Record A)) × World C
  unfolding resolve_results new_budget
  find_providers vs w = let (vs', s) = resolve_results vs (new_budget w) in (vs', s.world)

  unfoldable pub resolve_peer_result :
      Result (PeerRecord A) → State C → Result (PeerRecord A) × State C
  unfolding resolve_record_addrs
  resolve_peer_result v s = elim v.err [
    | some e ↦ (v, s)
    | none ↦ elim v.val [
      | none ↦ (v, s)
      | some r ↦ let (r', s') = resolve_peer r s in (record v { val = some r' }, s')
    ]
  ]

  unfoldable pub resolve_peer_results :
      List (Result (PeerRecord A)) → State C → List (Result (PeerRecord A)) × State C
  unfolding resolve_peer_result
  resolve_peer_results [] s = ([], s)
  resolve_peer_results (v ∷ vs) s =
      let (v', s') = resolve_peer_result v s in
      let (vs', s'') = resolve_peer_results vs s' in (v' ∷ vs', s'')

  -- resolvePeerRecords, which FindPeers and GetClosestPeers apply.
  unfoldable pub resolve_peer_records :
      List (Result (PeerRecord A)) → World C → List (Result (PeerRecord A)) × World C
  unfolding resolve_peer_results new_budget
  resolve_peer_records vs w =
      let (vs', s) = resolve_peer_results vs (new_budget w) in (vs', s.world)
