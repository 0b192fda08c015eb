-- ===== src/Server/Requests.antt =====
-- A request of the HTTP API on its way through the routers of a started server: the composableRouter
-- that `start` of server.go makes, the routers of combineRouters behind it, and the methods that
-- dnsAddrRouter, sanitizeRouter and cachedRouter pass on (server_routers.go,
-- server_delegated_routing.go).

pub mod Publish
pub mod Resolve
pub mod Lookup
use someguy.Prelude.{ℕ, Bool, Option, none, some, List}
use someguy.Records.{GoError, not_found}
use someguy.BlockRouter.{HttpBlockRouter}
use someguy.Routers.Compose.{
  Fallible, ok, fails, or_not_supported, Merged, no_results, single, find,
  put_ipns as parallel_put_ipns, Child, given, sanitized_dht, Composed, no_router, only, parallel,
}
use someguy.Routers.Ipns.{IpnsRecords, IpnsAnswer, Round, get_ipns as parallel_get_ipns}
use someguy.Server.Start.{Upstream, http_router, block_router, Handler}

-- What the routers at the ends answer to a request. I: iterators over records, J: iterators over peer
-- records, R: IPNS records. The DHT's answers are those of the libp2pRouter, behind a
-- sanitizeRouter and, where `cached` says so, a cachedRouter; its FindProviders returns no error.
pub record Backends (A K R I J : Type 0) : Type 0 where
  pub http_find_providers : K → Fallible I
  pub http_find_peers : K → Fallible J
  pub http_get_ipns : K → IpnsAnswer R
  pub http_put_ipns : K → Option GoError
  pub block_find_providers : HttpBlockRouter A → Fallible I
  pub dht_find_providers : (cached : Bool) → I
  pub dht_find_peers : (cached : Bool) → Fallible J
  pub dht_get_ipns : IpnsAnswer R
  pub dht_put_ipns : Option GoError
  pub dht_get_closest_peers : (cached : Bool) → Fallible J
  pub no_peers : J

-- A method of a child of a composed router.
abbrev pub ask_child : {X T : Type 0} → (X → T) → (Bool → T) → Child X → T
ask_child call dht (given x) = call x
ask_child call dht (sanitized_dht cached) = dht cached

-- An iterator of the handler, and whether a dnsAddrRouter maps its results.
abbrev pub mapped : {T : Type 0} → Bool → Fallible T → Fallible (Bool × T)
mapped resolves (ok t) = ok (resolves, t)
mapped resolves (fails e) = fails e

abbrev pub alone : {I : Type 0} → Fallible I → Fallible (Merged I)
alone (ok it) = ok (single it)
alone (fails e) = fails e

-- FindProviders and FindPeers. The router of no_router is a composableRouter with nothing in it, here and
-- in the other methods.
unfoldable pub find_through :
    {X I : Type 0} → (X → Fallible I) → (Bool → Fallible I) → Composed X → Fallible (Merged I)
unfolding find
find_through call dht no_router = ok no_results
find_through call dht (only c) = alone (ask_child call dht c)
find_through call dht (parallel cs) = find (ask_child call dht) cs

unfoldable pub put_ipns_through :
    {X : Type 0} → (X → Option GoError) → Option GoError → Composed X → Option GoError
unfolding parallel_put_ipns
put_ipns_through call dht no_router = none
put_ipns_through call dht (only c) = ask_child call (λ cached. dht) c
put_ipns_through call dht (parallel cs) = parallel_put_ipns (ask_child call (λ cached. dht)) cs

abbrev answered : {R : Type 0} → IpnsAnswer R → Fallible (Option R)
answered a = elim a.err [ some e ↦ fails e | none ↦ ok a.val ]

unfoldable pub get_ipns_through :
    {X R : Type 0}
    → IpnsRecords R
    → (X → IpnsAnswer R)
    → IpnsAnswer R
    → Composed X
    → ℕ
    → List (Round R)
    → Fallible (Option R)
unfolding parallel_get_ipns
get_ipns_through ipns call dht no_router now rounds = fails not_found
get_ipns_through ipns call dht (only c) now rounds = answered (ask_child call (λ cached. dht) c)
get_ipns_through ipns call dht (parallel cs) now rounds =
    parallel_get_ipns ipns (ask_child call (λ cached. dht)) cs now rounds

module _ {A K R I J : Type 0} (backends : Backends A K R I J) where
  -- A gateway stands in a composableRouter that has no router but for providers.
  abbrev pub ask_providers : Upstream A K → Fallible I
  ask_providers (http_router k) = backends.http_find_providers k
  ask_providers (block_router b) = backends.block_find_providers b

  abbrev pub ask_peers : Upstream A K → Fallible J
  ask_peers (http_router k) = backends.http_find_peers k
  ask_peers (block_router b) = ok backends.no_peers

  abbrev pub ask_get_ipns : Upstream A K → IpnsAnswer R
  ask_get_ipns (http_router k) = backends.http_get_ipns k
  ask_get_ipns (block_router b) = record { val = none; err = some not_found }

  abbrev pub ask_put_ipns : Upstream A K → Option GoError
  ask_put_ipns (http_router k) = backends.http_put_ipns k
  ask_put_ipns (block_router b) = none

  -- The methods of the handler's composableRouter.
  unfoldable pub find_providers : {B : Type 0} → Handler A K B → Fallible (Bool × Merged I)
  unfolding find_through
  find_providers h =
      mapped h.providers.0 (
        find_through ask_providers (λ cached. ok (backends.dht_find_providers cached))
          h.providers.1)

  unfoldable pub find_peers : {B : Type 0} → Handler A K B → Fallible (Bool × Merged J)
  unfolding find_through
  find_peers h = mapped h.peers.0 (find_through ask_peers backends.dht_find_peers h.peers.1)

  unfoldable pub put_ipns : {B : Type 0} → Handler A K B → Option GoError
  unfolding put_ipns_through
  put_ipns h = put_ipns_through ask_put_ipns backends.dht_put_ipns h.ipns.1

  unfoldable pub get_ipns :
      {B : Type 0} → IpnsRecords R → Handler A K B → ℕ → List (Round R) → Fallible (Option R)
  unfolding get_ipns_through
  get_ipns ipns h now rounds =
      get_ipns_through ipns ask_get_ipns backends.dht_get_ipns h.ipns.1 now rounds

  unfoldable pub get_closest_peers : {B : Type 0} → Handler A K B → Fallible (Bool × Merged J)
  unfolding find_through or_not_supported
  get_closest_peers h =
      or_not_supported
        (λ (d : Bool × Composed (Upstream A K)).
          mapped d.0 (find_through ask_peers backends.dht_get_closest_peers d.1))
        h.dht
