-- ===== src/Server/Start.antt =====
-- `start` of server.go up to the point where the HTTP server listens: the steps in their order, and the
-- routers behind each endpoint.
use someguy.Server.Host.{HostServices, new_host}
use someguy.Prelude.{Bool, true, false, Option, none, some, List, [], ◌∷◌}
use someguy.Prelude.Bytes.{Bytes}
use someguy.Prelude.Int.{ℤ}
use someguy.Prelude.Try.{Try, success, refused, ◌>>=◌}
use someguy.Prelude.{ℕ}
use someguy.Records.{GoError}
use someguy.Routers.Compose.{
  Fallible, sanitized_dht, Composed, only, with_dns_addr_resolution, combine_routers,
}
use someguy.DnsAddr.Mode.{DnsAddrResolution, never_mode}
use someguy.Autoconf.{
  AutoconfLib, Checked, valid, invalid, expand_delegated_routing_endpoints,
  get_bootstrap_peer_addr_infos,
}
use someguy.Autoconf.Client.{AutoconfClient, start_auto_conf, auto_conf_or_nil}
use someguy.BlockRouter.{Platform, HttpBlockRouter}
use someguy.CachedAddrBook.Background.{AddrBookOption}
use someguy.Endpoints.{Config, Delegated, create_delegated_http_routers}
use someguy.Server.{
  ServerConfig, StartError, host_failed, delegated_failed, resolver_failed, tracing_failed,
  compression_failed, endpoint_failed, bad_listen_address, run, run_fallible, DhtKind, make_dht,
  make_book, make_block_provider_routers, routing_timeout_option,
}

-- The calls that start makes, each with the error that it may return. A: addresses, F:
-- autoconf configurations, N: autoconf clients, I: bootstrap peers, K: HTTP routers, B: address books,
-- C: resource limits.
pub record Services (A F N I K B C : Type 0) : Type 0 where
  pub version : Bytes
  pub host : HostServices C
  pub host_peerstore : Bytes → List A
  pub autoconf_client : AutoconfClient F N
  pub autoconf_lib : AutoconfLib F I
  pub new_dht : List I → DhtKind → Option GoError
  pub new_cached_addr_book : List (AddrBookOption A) → Option B
  pub platform : Platform A
  pub decode_peer : Bytes → Option Bytes
  pub new_http_router : Bytes → Fallible K
  pub register_view : Option GoError
  pub new_dns_addr_resolver : Option GoError
  pub split_host_port : Bytes → Option (Bytes × Bytes)
  pub setup_tracing : Option GoError
  pub new_compression_adapter : Option GoError

-- A router that is not made of the DHT.
pub data Upstream (A K : Type 0) : Type 0 where
  http_router : K → Upstream A K
  block_router : HttpBlockRouter A → Upstream A K

-- The composableRouter of the handler and the options of the handler. A Bool says whether a
-- dnsAddrRouter stands in front.
pub record Handler (A K B : Type 0) : Type 0 where
  pub address_book : Option B
  pub providers : Bool × Composed (Upstream A K)
  pub peers : Bool × Composed (Upstream A K)
  pub ipns : Bool × Composed (Upstream A K)
  pub dht : Option (Bool × Composed (Upstream A K))
  pub records_limit : ℤ
  pub streaming_records_limit : ℤ
  pub routing_timeout : ℕ

abbrev pub is_some : {T : Type 0} → Option T → Bool
is_some none = false
is_some (some t) = true

abbrev pub http_routers : {A K : Type 0} → List K → List (Upstream A K)
http_routers [] = []
http_routers (k ∷ ks) = http_router k ∷ http_routers ks

abbrev pub block_routers : {A K : Type 0} → List (HttpBlockRouter A) → List (Upstream A K)
block_routers [] = []
block_routers (r ∷ rs) = block_router r ∷ block_routers rs

-- dhtRouters, none for nil.
unfoldable pub dht_routers :
    {X : Type 0}
    → (has_book has_dht : Bool) → (has_resolver : Bool) → DnsAddrResolution
    → Option (Bool × Composed X)
unfolding with_dns_addr_resolution
dht_routers has_book false has_resolver mode = none
dht_routers has_book true has_resolver mode =
    some (with_dns_addr_resolution (only (sanitized_dht has_book)) has_resolver mode)

unfoldable pub make_handler :
    {A K B : Type 0}
    → ServerConfig
    → Option DhtKind
    → Option B
    → List (HttpBlockRouter A)
    → Delegated K
    → (has_resolver : Bool) → Handler A K B
unfolding combine_routers dht_routers routing_timeout_option
make_handler cfg dht book blocks delegated has_resolver =
    let has_book = is_some book in
    let has_dht = is_some dht in
    let mode = cfg.dns_addr_resolution in
    record {
      address_book = book;
      providers =
          combine_routers has_book has_dht (http_routers delegated.providers) (block_routers blocks)
            has_resolver mode;
      peers = combine_routers has_book has_dht (http_routers delegated.peers) [] has_resolver mode;
      ipns = combine_routers has_book has_dht (http_routers delegated.ipns) [] has_resolver mode;
      dht = dht_routers has_book has_dht has_resolver mode;
      records_limit = cfg.records_limit;
      streaming_records_limit = cfg.streaming_records_limit;
      routing_timeout = routing_timeout_option cfg.routing_timeout;
    }

-- The resolver is made unless the mode is `never`.
unfoldable pub make_resolver : Option GoError → DnsAddrResolution → Try StartError Bool
make_resolver new_resolver never_mode = success false
make_resolver new_resolver mode = run resolver_failed new_resolver >>= λ _. success true

abbrev pub checked : Checked Config → Try StartError Config
checked (valid endpoints) = success endpoints
checked (invalid e) = refused (endpoint_failed e)

abbrev pub host_port : Option (Bytes × Bytes) → Try StartError (Bytes × Bytes)
host_port none = refused bad_listen_address
host_port (some p) = success p

unfoldable pub start :
    {A F N I K B C : Type 0}
    → Services A F N I K B C
    → ServerConfig
    → Try StartError (Handler A K B)
unfolding new_host start_auto_conf get_bootstrap_peer_addr_infos expand_delegated_routing_endpoints
    make_dht make_book make_block_provider_routers create_delegated_http_routers make_resolver
    make_handler
start services cfg = do
  _ ← run host_failed (new_host services.host services.version cfg.host)
  let auto_conf =
      auto_conf_or_nil (start_auto_conf services.autoconf_client services.version cfg.auto_conf)
  let bootstrap = get_bootstrap_peer_addr_infos services.autoconf_lib cfg.dht_type auto_conf
  endpoints ← checked (
      expand_delegated_routing_endpoints services.autoconf_lib cfg.auto_conf.enabled cfg.dht_type
        auto_conf cfg.endpoints)
  dht ← make_dht (services.new_dht bootstrap) cfg.dht_type
  book ← make_book services.new_cached_addr_book services.host_peerstore dht cfg
  blocks ← make_block_provider_routers services.platform services.decode_peer cfg
  delegated ←
      run_fallible delegated_failed
        (create_delegated_http_routers services.new_http_router services.register_view endpoints)
  has_resolver ← make_resolver services.new_dns_addr_resolver cfg.dns_addr_resolution
  address ← host_port (services.split_host_port cfg.listen_address)
  _ ← run tracing_failed services.setup_tracing
  _ ← run compression_failed services.new_compression_adapter
  success (make_handler cfg dht book blocks delegated has_resolver)
