-- ===== src/Examples/Dns.antt =====
-- Resolving a record with a /dnsaddr of its own peer.
use someguy.Routers.Sanitize.{sanitize_providers}
use someguy.DnsAddr.Public.{NoPrivate, find_providers-NoPrivate}
use someguy.Prelude.{
  suc, ◌+◌, ◌*◌, ◌≤◌, ◌≡◌, refl, Bool, true, false, none, some, List, [], ◌∷◌, All, Each, length,
  arith,
}
use someguy.Prelude.Bytes.{Bytes}
use someguy.Context.{Ctx, second}
use someguy.Records.{Record, peer_record, PeerRecord, schema_peer, Result, result_addrs}
use someguy.DnsAddr.Mode.{append_mode}
use someguy.DnsAddr.Types.{CacheEntry, State, queries}
use someguy.DnsAddr.Host.{is_dns_addr, contains_dns_addr}
use someguy.DnsAddr.Lookup.{lookup}
use someguy.DnsAddr.Expand.{resolve_addrs}
use someguy.DnsAddr.Contents.Record.{HasOrigin, resolve_addrs-HasOrigin}
use someguy.DnsAddr.Router.{find_providers}
use someguy.DnsAddr.Response.{find_providers_cost}
use someguy.DnsAddr.Caching.{lookup_detached, lookup_again}
use someguy.Samples.{bytes_multiaddr, sample_dns, sample_dns-laws, sample_world}
use someguy.Samples.Caches.{list_cache, list_cache-laws}

abbrev peer_id : Bytes
peer_id = 165 ∷ []

-- /dnsaddr with the record's own peer, and a direct address.
abbrev record_addrs_in : List Bytes
record_addrs_in = (56 ∷ 7 ∷ 165 ∷ []) ∷ (4 ∷ 3 ∷ []) ∷ []

abbrev forever : Ctx
forever = record { done_at = none }

abbrev half_second : Ctx
half_second = record { done_at = some 500000000 }

abbrev start : State (List (Bytes × CacheEntry Bytes))
start = record { room = 100; lookups = 16; world = sample_world }

abbrev peer_in : PeerRecord Bytes
peer_in = record {
  schema = schema_peer;
  id = some peer_id;
  addrs = record_addrs_in;
  protocols = [];
}

abbrev provider_results : List (Result (Record Bytes))
provider_results = record { val = some (peer_record peer_in); err = none } ∷ []

abbrev peer_results : List (Result (PeerRecord Bytes))
peer_results = record { val = some peer_in; err = none } ∷ []

abbrev resolve_here : Bool → List Bytes → List Bytes × State (List (Bytes × CacheEntry Bytes))
resolve_here keep_original addrs =
    resolve_addrs list_cache sample_dns forever peer_id keep_original addrs start

find_providers_cost_example :
    let r =
      find_providers list_cache sample_dns append_mode none forever provider_results sample_world in
    (queries r.1 ≤ queries sample_world + 16)
    × (r.1.now ≤ sample_world.now + 16 * second)
    × Each (λ v v'. length (result_addrs v') ≤ length (result_addrs v) + 100) provider_results r.0
find_providers_cost_example =
    find_providers_cost list_cache sample_dns append_mode none forever sample_dns-laws
      provider_results sample_world

empty_has_no_dns_addr : (x : Bytes) → bytes_multiaddr.is_nil x ≡ true → is_dns_addr x ≡ false
unfolding is_dns_addr
empty_has_no_dns_addr [] h = refl
empty_has_no_dns_addr (b ∷ x) h = absurd (ground arith)

names_dns_addr : contains_dns_addr record_addrs_in ≡ true
unfolding contains_dns_addr is_dns_addr
names_dns_addr = refl

resolve_addrs-HasOrigin_example :
    All
      (HasOrigin list_cache sample_dns forever peer_id false record_addrs_in start)
      (resolve_here false record_addrs_in).0
resolve_addrs-HasOrigin_example =
    resolve_addrs-HasOrigin list_cache sample_dns forever peer_id false list_cache-laws
      record_addrs_in empty_has_no_dns_addr start names_dns_addr

lookup_detached_example :
    let w = (lookup list_cache sample_dns half_second (56 ∷ 7 ∷ []) start).1.world in
    let w' = (lookup list_cache sample_dns forever (56 ∷ 7 ∷ []) start).1.world in
    (w.cache ≡ w'.cache)
    × (w.hits ≡ w'.hits)
    × (w.resolves ≡ w'.resolves)
    × (w.empties ≡ w'.empties)
    × (w.failures ≡ w'.failures)
    × (w.throttles ≡ w'.throttles)
    × ((lookup list_cache sample_dns half_second (56 ∷ 7 ∷ []) start).1.lookups
        ≡ (lookup list_cache sample_dns forever (56 ∷ 7 ∷ []) start).1.lookups)
lookup_detached_example =
    lookup_detached list_cache sample_dns half_second forever (56 ∷ 7 ∷ []) start refl refl

lookup_again_example :
    let r = lookup list_cache sample_dns forever (56 ∷ 7 ∷ []) start in
    let r' = lookup list_cache sample_dns half_second (56 ∷ 7 ∷ []) (record r.1 { lookups = 0 }) in
    (r'.0 ≡ r.0)
    × (queries r'.1.world ≡ queries r.1.world)
    × (r'.1.world.hits ≡ suc r.1.world.hits)
    × (r'.1.lookups ≡ 0)
unfolding someguy.Samples.Caches.lookup
lookup_again_example =
    lookup_again list_cache sample_dns list_cache-laws (56 ∷ 7 ∷ []) start half_second 0 refl refl
      (omega arith)

find_providers-NoPrivate_example :
    All
      (λ v. NoPrivate (result_addrs v))
      (find_providers list_cache sample_dns append_mode none forever
        (sanitize_providers provider_results)
        sample_world).0
find_providers-NoPrivate_example =
    find_providers-NoPrivate list_cache sample_dns append_mode none forever provider_results
      sample_world ((refl, refl), tt)
