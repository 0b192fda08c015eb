-- ===== src/Server.antt =====
-- server.go: what `start` decides from the configuration. The services that it starts are parameters.
pub mod Host
pub mod Headers
pub mod Start
pub mod Blocks
pub mod Steps
pub mod Combined
pub mod Serves
pub mod Requests
pub mod Shutdown
pub mod Middleware
use someguy.Server.Host.{HostConfig}
use someguy.Prelude.{
  ℕ, zero, ◌*◌, Bool, true, false, not, ◌&&◌, Option, none, some, List, [], ◌∷◌, ◌++◌, length,
  is_empty, ◌==◌, if◌then◌else◌,
}
use someguy.Prelude.Bytes.{Bytes, codes, same}
use someguy.Prelude.Int.{ℤ, pos, negsuc}
use someguy.Prelude.Try.{Try, success, refused, ◌>>=◌}
use someguy.Context.{second}
use someguy.Records.{GoError}
use someguy.Routers.Compose.{Fallible, ok, fails}
use someguy.DnsAddr.Mode.{DnsAddrResolution}
use someguy.Autoconf.{EndpointError}
use someguy.Autoconf.Client.{AutoConfConfig}
use someguy.BlockRouter.{Platform, BlockError, HttpBlockRouter, new_http_block_router}
use someguy.CachedAddrBook.Background.{
  AddrBookOption, with_host_peerstore, with_recently_connected_ttl, with_active_probing,
  with_max_concurrent_find_peers,
}
use someguy.Endpoints.{Config}

-- config; `host` is what newHost reads. Durations are nanoseconds and may be negative.
pub record ServerConfig : Type 0 where
  pub listen_address : Bytes
  pub host : HostConfig
  pub dht_type : Bytes
  pub cached_addr_book : Bool
  pub cached_addr_book_active_probing : Bool
  pub cached_addr_book_recent_ttl : ℤ
  pub cached_addr_book_max_find_peers : ℤ
  pub routing_timeout : ℤ
  pub dns_addr_resolution : DnsAddrResolution
  pub records_limit : ℤ
  pub streaming_records_limit : ℤ
  pub endpoints : Config
  pub block_provider_endpoints : List Bytes
  pub block_provider_peer_ids : List Bytes
  pub tracing_auth : Bytes
  pub auto_conf : AutoConfConfig

-- The errors that start returns, by the step that fails.
pub data StartError : Type 0 where
  host_failed dht_failed delegated_failed resolver_failed tracing_failed compression_failed :
      GoError → StartError
  endpoint_failed : EndpointError → StartError
  invalid_dht_type invalid_peer_id : Bytes → StartError
  address_book_failed peer_ids_mismatch bad_listen_address : StartError
  block_router_failed : BlockError → StartError

-- A call that returns only an error.
abbrev pub run : (GoError → StartError) → Option GoError → Try StartError (Unit {0})
run step none = success tt
run step (some e) = refused (step e)

abbrev pub run_fallible : {T : Type 0} → (GoError → StartError) → Fallible T → Try StartError T
run_fallible step (ok t) = success t
run_fallible step (fails e) = refused (step e)

pub data DhtKind : Type 0 where
  accelerated_dht standard_dht : DhtKind

abbrev started : DhtKind → Option GoError → Try StartError (Option DhtKind)
started kind none = success (some kind)
started kind (some e) = refused (dht_failed e)

-- The DHT, none for nil; `new_dht` is the error of newBundledDHT or dht.New.
unfoldable pub make_dht : (DhtKind → Option GoError) → Bytes → Try StartError (Option DhtKind)
unfolding same
make_dht new_dht dht_type =
    if same dht_type (codes "accelerated")
    then started accelerated_dht (new_dht accelerated_dht)
    else if same dht_type (codes "standard")
    then started standard_dht (new_dht standard_dht)
    else if same dht_type (codes "disabled")
    then success none
    else refused (invalid_dht_type dht_type)

abbrev if_positive : {T : Type 0} → (ℕ → T) → ℤ → List T
if_positive f (pos zero) = []
if_positive f (pos n) = f n ∷ []
if_positive f (negsuc n) = []

unfoldable pub book_options :
    {A : Type 0} → (Bytes → List A) → ServerConfig → List (AddrBookOption A)
book_options host_peerstore cfg =
    if_positive with_recently_connected_ttl cfg.cached_addr_book_recent_ttl
    ++ if_positive with_max_concurrent_find_peers cfg.cached_addr_book_max_find_peers
    ++ with_active_probing cfg.cached_addr_book_active_probing
      ∷ with_host_peerstore host_peerstore
      ∷ []

-- `new_book` is newCachedAddrBook; none is an error.
unfoldable pub make_book :
    {A B : Type 0}
    → (List (AddrBookOption A) → Option B)
    → (Bytes → List A)
    → Option DhtKind
    → ServerConfig
    → Try StartError (Option B)
unfolding book_options
make_book new_book host_peerstore none cfg = success none
make_book new_book host_peerstore (some dht) cfg =
    if cfg.cached_addr_book
    then elim (new_book (book_options host_peerstore cfg)) [
      | none ↦ refused address_book_failed
      | some book ↦ success (some book)
    ]
    else success none

abbrev pub block_of : {T : Type 0} → Try BlockError T → Try StartError T
block_of (success t) = success t
block_of (refused e) = refused (block_router_failed e)

abbrev pub peer_of : (Bytes → Option Bytes) → Bytes → Try StartError Bytes
peer_of decode_peer id = elim (decode_peer id) [
  | none ↦ refused (invalid_peer_id id)
  | some p ↦ success p
]

module _ {A : Type 0} (platform : Platform A) (decode_peer : Bytes → Option Bytes) where
  -- The loop over the endpoints, which are as many as the peer IDs.
  unfoldable pub block_provider_loop :
      List Bytes → List Bytes → Try StartError (List (HttpBlockRouter A))
  unfolding new_http_block_router
  block_provider_loop (endpoint ∷ endpoints) (id ∷ ids) = do
    p ← peer_of decode_peer id
    r ← block_of (new_http_block_router platform endpoint p none)
    rs ← block_provider_loop endpoints ids
    success (r ∷ rs)
  block_provider_loop endpoints ids = success []

  unfoldable pub make_block_provider_routers :
      ServerConfig → Try StartError (List (HttpBlockRouter A))
  unfolding block_provider_loop
  make_block_provider_routers cfg =
      if is_empty cfg.block_provider_endpoints
      then success []
      else if length cfg.block_provider_peer_ids == length cfg.block_provider_endpoints
      then block_provider_loop cfg.block_provider_endpoints cfg.block_provider_peer_ids
      else refused peer_ids_mismatch

abbrev pub default_routing_timeout : ℕ
default_routing_timeout = 25 * second

unfoldable pub routing_timeout_option : ℤ → ℕ
routing_timeout_option (pos zero) = default_routing_timeout
routing_timeout_option (pos t) = t
routing_timeout_option (negsuc t) = default_routing_timeout
