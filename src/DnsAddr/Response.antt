-- ===== src/DnsAddr/Response.antt =====
-- The cost of resolving all the records of one response.
use someguy.Prelude.{
  ℕ, ◌+◌, ◌*◌, ◌≤◌, ◌≡◌, inl, inr, true, false, not, Option, none, some, List, [], ◌∷◌, length,
  length-keep-le, keep, Each, arith, Option-cases,
}
use someguy.Prelude.Bytes.{Bytes}
use someguy.Prelude.Sort.{length-sort_func}
use someguy.Multiaddr.{Multiaddr}
use someguy.Addrs.{compare_addrs, sorted_addrs, filter_private_multiaddr}
use someguy.Lru.{Lru}
use someguy.Context.{Ctx, second}
use someguy.Records.{
  Schema, PeerRecord, Record, peer_record, bitswap_record, other_record, get_schema, Result,
  record_addrs, result_addrs, peer_addrs,
}
use someguy.DnsAddr.Mode.{DnsAddrResolution, AddrFilter}
use someguy.DnsAddr.Types.{CacheEntry, Dns, DnsLaws, World, State, queries, max_resolved_per_record}
use someguy.DnsAddr.Expand.{resolve_addrs}
use someguy.DnsAddr.Bounds.{Spends, Spends-trans}
use someguy.DnsAddr.Bounds.Record.{resolve_addrs_cost}
use someguy.DnsAddr.Router.{
  new_budget, resolve_record_addrs, resolve_schema, resolve_result, resolve_results, find_providers,
  resolve_peer_result, resolve_peer_results, resolve_peer_records,
}

module _ {A : Type 0} ⦃m : Multiaddr A⦄ where
  length-sorted_addrs : (xs : List A) → length (sorted_addrs xs) ≡ length xs
  unfolding sorted_addrs
  length-sorted_addrs xs = length-sort_func compare_addrs xs

  length-filter_private_multiaddr-le :
      (xs : List A) → length (filter_private_multiaddr xs) ≤ length xs
  unfolding filter_private_multiaddr
  length-filter_private_multiaddr-le xs = omega (
    arith,
    length-sort_func compare_addrs (keep (λ x. not (m.is_private x)) xs),
    length-keep-le (λ x. not (m.is_private x)) xs,
  )

-- At most 100 addresses more.
abbrev pub Grows : ℕ → ℕ → Type 0
Grows before after = after ≤ before + max_resolved_per_record

Spends-refl : {C : Type 0} (s : State C) → Spends s s
Spends-refl s = omega arith

module _ {A C : Type 0} ⦃m : Multiaddr A⦄ (cache : Lru C Bytes (CacheEntry A)) (dns : Dns A)
    (mode : DnsAddrResolution) (filter : Option AddrFilter) (ctx : Ctx) (laws : DnsLaws A dns) where
  resolve_record_addrs_cost :
      (pid : Option Bytes) (addrs : List A) (s : State C)
      → let r = resolve_record_addrs cache dns mode filter ctx pid addrs s in
        Spends s r.1 × Grows (length addrs) (length r.0)
  unfolding resolve_record_addrs
  resolve_record_addrs_cost none addrs s = omega (arith, length-sorted_addrs addrs)
  resolve_record_addrs_cost (some pid) addrs s = ground (
    arith,
    length-sorted_addrs addrs,
    resolve_addrs_cost cache dns laws ctx pid false addrs s,
    resolve_addrs_cost cache dns laws ctx pid true addrs s,
    length-filter_private_multiaddr-le (resolve_addrs cache dns ctx pid false addrs s).0,
    length-filter_private_multiaddr-le (resolve_addrs cache dns ctx pid true addrs s).0,
  )

  resolve_schema_cost :
      (c : Schema) (v : Record A) (s : State C)
      → let r = resolve_schema cache dns mode filter ctx c v s in
        Spends s r.1 × Grows (length (record_addrs v)) (length (record_addrs r.0))
  unfolding resolve_schema
  resolve_schema_cost c (peer_record r) s = ground (arith, resolve_record_addrs_cost r.id r.addrs s)
  resolve_schema_cost c (bitswap_record r) s =
      ground (arith, resolve_record_addrs_cost r.id r.addrs s)
  resolve_schema_cost c (other_record d b) s = ground arith

  resolve_result_cost :
      (v : Result (Record A)) (s : State C)
      → let r = resolve_result cache dns mode filter ctx v s in
        Spends s r.1 × Grows (length (result_addrs v)) (length (result_addrs r.0))
  unfolding resolve_result
  resolve_result_cost v s = elim (Option-cases v.val) [
    | inl e ↦ ground arith
    | inr (r, e) ↦ ground (arith, resolve_schema_cost (get_schema r) r s)
  ]

  resolve_results_cost :
      (vs : List (Result (Record A))) (s : State C)
      → let r = resolve_results cache dns mode filter ctx vs s in
        Spends s r.1
        × Each (λ v v'. Grows (length (result_addrs v)) (length (result_addrs v'))) vs r.0
  unfolding resolve_results
  resolve_results_cost [] s = (Spends-refl s, tt)
  resolve_results_cost (v ∷ vs) s =
      let r = resolve_result cache dns mode filter ctx v s in
      let h = resolve_result_cost v s in
      let k = resolve_results_cost vs r.1 in (Spends-trans h.0 k.0, (h.1, k.1))

  -- Whatever the provider records of a response name, resolving their addresses makes at most 16
  -- DNS queries, waits at most 16 seconds, and adds at most 100 addresses to each record, if a
  -- query and a query of another request that is joined end within the lookup timeout.
  pub find_providers_cost :
      (vs : List (Result (Record A))) (w : World C)
      → let r = find_providers cache dns mode filter ctx vs w in
        (queries r.1 ≤ queries w + 16)
        × (r.1.now ≤ w.now + 16 * second)
        × Each (λ v v'. length (result_addrs v') ≤ length (result_addrs v) + 100) vs r.0
  unfolding find_providers
  find_providers_cost vs w =
      let h = resolve_results_cost vs (new_budget w) in
      (omega (arith, h.0), omega (arith, h.0), h.1)

  resolve_peer_result_cost :
      (v : Result (PeerRecord A)) (s : State C)
      → let r = resolve_peer_result cache dns mode filter ctx v s in
        Spends s r.1 × Grows (length (peer_addrs v)) (length (peer_addrs r.0))
  unfolding resolve_peer_result
  resolve_peer_result_cost v s = elim (Option-cases v.val) [
    | inl e ↦ ground arith
    | inr (r, e) ↦ ground (arith, resolve_record_addrs_cost r.id r.addrs s)
  ]

  resolve_peer_results_cost :
      (vs : List (Result (PeerRecord A))) (s : State C)
      → let r = resolve_peer_results cache dns mode filter ctx vs s in
        Spends s r.1 × Each (λ v v'. Grows (length (peer_addrs v)) (length (peer_addrs v'))) vs r.0
  unfolding resolve_peer_results
  resolve_peer_results_cost [] s = (Spends-refl s, tt)
  resolve_peer_results_cost (v ∷ vs) s =
      let r = resolve_peer_result cache dns mode filter ctx v s in
      let h = resolve_peer_result_cost v s in
      let k = resolve_peer_results_cost vs r.1 in (Spends-trans h.0 k.0, (h.1, k.1))

  -- The same bounds for the records of FindPeers and GetClosestPeers: 16 queries and 16 seconds
  -- for a response, 100 addresses more for each record, if queries end within the timeout.
  resolve_peer_records_cost :
      (vs : List (Result (PeerRecord A))) (w : World C)
      → let r = resolve_peer_records cache dns mode filter ctx vs w in
        (queries r.1 ≤ queries w + 16)
        × (r.1.now ≤ w.now + 16 * second)
        × Each (λ v v'. length (peer_addrs v') ≤ length (peer_addrs v) + 100) vs r.0
  unfolding resolve_peer_records
  resolve_peer_records_cost vs w =
      let h = resolve_peer_results_cost vs (new_budget w) in
      (omega (arith, h.0), omega (arith, h.0), h.1)
