-- ===== src/DnsAddr/Public.antt =====
-- dnsAddrRouter in front of a sanitizeRouter (server_routers.go): private addresses in DNS.
use someguy.Prelude.{◌≡◌, inl, inr, true, false, Option, none, some, List, [], ◌∷◌, All, Bool-cases}
use someguy.Prelude.Bytes.{Bytes}
use someguy.Prelude.Sort.{All-sort_func}
use someguy.Multiaddr.{Multiaddr}
use someguy.Addrs.{compare_addrs, sorted_addrs}
use someguy.Addrs.Order.{filter_private_multiaddr_contents}
use someguy.Lru.{Lru}
use someguy.Context.{Ctx}
use someguy.Records.{
  Schema, schema_peer, schema_bitswap, schema_other, Record, peer_record, bitswap_record,
  other_record, get_schema, Result, record_addrs, result_addrs, GoError,
}
use someguy.Routers.Sanitize.{sanitize_providers, IsProper, sanitize_providers-public}
use someguy.DnsAddr.Mode.{
  DnsAddrResolution, AddrFilter, DnsAddrAction, skip, replace, append, action,
}
use someguy.DnsAddr.Host.{contains_dns_addr}
use someguy.DnsAddr.Types.{CacheEntry, Dns, World, State}
use someguy.DnsAddr.Expand.{resolve_addrs}
use someguy.DnsAddr.Router.{
  new_budget, resolve_with, resolve_record_addrs, resolve_schema, resolve_result, resolve_results,
  find_providers,
}

module _ {A : Type 0} ⦃m : Multiaddr A⦄ where
  abbrev pub NoPrivate : List A → Type 0
  NoPrivate xs = All (λ x. m.is_private x ≡ false) xs

  NoPrivate-sorted_addrs : (xs : List A) → NoPrivate xs → NoPrivate (sorted_addrs xs)
  unfolding sorted_addrs
  NoPrivate-sorted_addrs xs h = All-sort_func compare_addrs _ _ h

module _ {A C : Type 0} ⦃m : Multiaddr A⦄ (cache : Lru C Bytes (CacheEntry A)) (dns : Dns A)
    (mode : DnsAddrResolution) (filter : Option AddrFilter) (ctx : Ctx) where
  resolve_with-NoPrivate :
      (a : DnsAddrAction) (pid : Bytes) (addrs : List A) (s : State C)
      → NoPrivate addrs
      → NoPrivate (resolve_with cache dns mode filter ctx a pid addrs s).0
  resolve_with-NoPrivate skip pid addrs s h = NoPrivate-sorted_addrs addrs h
  resolve_with-NoPrivate replace pid addrs s h =
      (filter_private_multiaddr_contents (resolve_addrs cache dns ctx pid false addrs s).0).0
  resolve_with-NoPrivate append pid addrs s h =
      (filter_private_multiaddr_contents (resolve_addrs cache dns ctx pid true addrs s).0).0

  resolve_record_addrs-NoPrivate :
      (pid : Option Bytes) (addrs : List A) (s : State C)
      → NoPrivate addrs
      → NoPrivate (resolve_record_addrs cache dns mode filter ctx pid addrs s).0
  unfolding resolve_record_addrs
  resolve_record_addrs-NoPrivate none addrs s h = NoPrivate-sorted_addrs addrs h
  resolve_record_addrs-NoPrivate (some pid) addrs s h =
      elim (Bool-cases (contains_dns_addr addrs)) [
        | inl e ↦ rw e (resolve_with-NoPrivate (action mode filter) pid addrs s h)
        | inr e ↦ rw e (NoPrivate-sorted_addrs addrs h)
      ]

  resolve_schema-NoPrivate :
      (c : Schema) (v : Record A) (s : State C)
      → NoPrivate (record_addrs v)
      → NoPrivate (record_addrs (resolve_schema cache dns mode filter ctx c v s).0)
  unfolding resolve_schema
  resolve_schema-NoPrivate schema_peer (peer_record r) s h =
      resolve_record_addrs-NoPrivate r.id r.addrs s h
  resolve_schema-NoPrivate schema_bitswap (bitswap_record r) s h =
      resolve_record_addrs-NoPrivate r.id r.addrs s h
  resolve_schema-NoPrivate schema_peer (bitswap_record r) s h = h
  resolve_schema-NoPrivate schema_peer (other_record d b) s h = h
  resolve_schema-NoPrivate schema_bitswap (peer_record r) s h = h
  resolve_schema-NoPrivate schema_bitswap (other_record d b) s h = h
  resolve_schema-NoPrivate schema_other v s h = h

  resolve_result-NoPrivate :
      (v : Result (Record A)) (s : State C)
      → NoPrivate (result_addrs v)
      → NoPrivate (result_addrs (resolve_result cache dns mode filter ctx v s).0)
  unfolding resolve_result
  resolve_result-NoPrivate v s h = resolve_parts v.val v.err h
    where
      resolve_parts :
          (val : Option (Record A)) (err : Option GoError)
          → NoPrivate (result_addrs (record { val = val; err = err }))
          → NoPrivate (
              result_addrs
                (resolve_result cache dns mode filter ctx (record { val = val; err = err }) s).0)
      resolve_parts val (some e) h = h
      resolve_parts none none h = h
      resolve_parts (some r) none h = resolve_schema-NoPrivate (get_schema r) r s h

  resolve_results-NoPrivate :
      (vs : List (Result (Record A))) (s : State C)
      → All (λ v. NoPrivate (result_addrs v)) vs
      → All (λ v. NoPrivate (result_addrs v)) (resolve_results cache dns mode filter ctx vs s).0
  unfolding resolve_results
  resolve_results-NoPrivate [] s h = tt
  resolve_results-NoPrivate (v ∷ vs) s h = (
    resolve_result-NoPrivate v s h.0,
    resolve_results-NoPrivate vs (resolve_result cache dns mode filter ctx v s).1 h.1,
  )

  -- Whatever DNS answers, no result of FindProviders from the DHT has a private address: the
  -- dnsAddrRouter in front of the sanitizeRouter, in every mode and for every filter, lets none in. A
  -- result of the DHT that is a peer or bitswap record comes without an error and has the schema of its
  -- type.
  pub find_providers-NoPrivate :
      (vs : List (Result (Record A))) (w : World C)
      → All IsProper vs
      → All
          (λ v. NoPrivate (result_addrs v))
          (find_providers cache dns mode filter ctx (sanitize_providers vs) w).0
  unfolding find_providers
  find_providers-NoPrivate vs w h =
      resolve_results-NoPrivate (sanitize_providers vs) (new_budget w)
        (sanitize_providers-public vs h)
