-- ===== src/Server/Serves.antt =====
-- What a server that starts serves.
use someguy.Server.Blocks.{IsMade, make_block_provider_routers-IsMade}
use someguy.DnsAddr.Mode.{DnsAddrResolution}
use someguy.Prelude.{
  zero, ◌<◌, ◌≡◌, refl, Bool, true, false, not, ◌&&◌, Option, none, some, List, [], arith, map, All,
  sym, ◌++◌, ◌||◌, ◌∙◌, suc,
}
use someguy.Prelude.Bytes.{codes, same}
use someguy.Prelude.Int.{ℤ, pos, negsuc}
use someguy.Prelude.Try.{success}
use someguy.BlockRouter.{HttpBlockRouter}
use someguy.Endpoints.{Delegated}
use someguy.Server.{ServerConfig, routing_timeout_option}
use someguy.Server.Start.{
  Services, Handler, Upstream, start, make_handler, is_some, http_routers, block_routers,
  dht_routers,
}
use someguy.Server.Steps.{Started, start-Started, make_dht-disabled, make_book-used}
use someguy.Server.Combined.{
  upstreams, asks_dht, combine_routers_lem, IsCombined, combine_routers-IsCombined,
  with_dns_addr_resolution-same,
}
use someguy.Routers.Compose.{Composed, only, sanitized_dht}

-- GetClosestPeers asks the DHT, and no other router.
abbrev pub ClosestRouter : {X : Type 0} → Bool → Option (Bool × Composed X) → Type 0
ClosestRouter has_book none = Unit
ClosestRouter has_book (some (resolves, c)) = c ≡ only (sanitized_dht has_book)

dht_routers-ClosestRouter :
    (X : Type 0) (has_book has_dht has_resolver : Bool) (mode : DnsAddrResolution)
    → ClosestRouter {X = X} has_book (dht_routers has_book has_dht has_resolver mode)
unfolding dht_routers
dht_routers-ClosestRouter X has_book false has_resolver mode = tt
dht_routers-ClosestRouter X has_book true has_resolver mode =
    with_dns_addr_resolution-same (only (sanitized_dht has_book)) has_resolver mode

-- What a server of a configuration serves.
pub record Serves {A F N I K B C : Type 0} (services : Services A F N I K B C) (cfg : ServerConfig)
    (handler : Handler A K B) : Type 0 where
  pub http : Delegated K
  pub blocks : List (HttpBlockRouter A)
  pub uses_dht : Bool
  pub dht_type : not (same cfg.dht_type (codes "disabled")) ≡ uses_dht
  pub providers :
      upstreams handler.providers.1 ≡ http_routers http.providers ++ block_routers blocks
  pub peers : upstreams handler.peers.1 ≡ http_routers http.peers ++ []
  pub ipns : upstreams handler.ipns.1 ≡ http_routers http.ipns ++ []
  pub providers_combined : IsCombined (is_some handler.address_book) handler.providers.1
  pub peers_combined : IsCombined (is_some handler.address_book) handler.peers.1
  pub ipns_combined : IsCombined (is_some handler.address_book) handler.ipns.1
  pub dht_for_providers : asks_dht handler.providers.1 ≡ uses_dht
  pub dht_for_peers : asks_dht handler.peers.1 ≡ uses_dht
  pub dht_for_ipns : asks_dht handler.ipns.1 ≡ uses_dht
  pub closest_peers : is_some handler.dht ≡ uses_dht
  pub closest_router : ClosestRouter (is_some handler.address_book) handler.dht
  pub address_book : is_some handler.address_book ≡ (cfg.cached_addr_book && uses_dht)
  pub block_endpoints : map (λ r. r.endpoint) blocks ≡ cfg.block_provider_endpoints
  pub gateways : All (IsMade services.platform services.decode_peer) blocks
  pub timeout : 0 < handler.routing_timeout

closest :
    (X : Type 0) (has_book has_dht has_resolver : Bool) (mode : DnsAddrResolution)
    → is_some (dht_routers {X = X} has_book has_dht has_resolver mode) ≡ has_dht
unfolding dht_routers
closest X has_book false has_resolver mode = refl
closest X has_book true has_resolver mode = refl

routing_timeout_option-positive : (t : ℤ) → 0 < routing_timeout_option t
unfolding routing_timeout_option
routing_timeout_option-positive (pos zero) = omega arith
routing_timeout_option-positive (pos (suc t)) = omega arith
routing_timeout_option-positive (negsuc t) = omega arith

handler-Serves :
    {A F N I K B C : Type 0} (services : Services A F N I K B C) (cfg : ServerConfig)
    (handler : Handler A K B) (s : Started services cfg handler)
    → Serves services cfg (make_handler cfg s.dht s.book s.blocks s.delegated s.has_resolver)
unfolding make_handler dht_routers
handler-Serves {A = A} {K = K} services cfg handler s =
    let used =
      make_book-used services.new_cached_addr_book services.host_peerstore s.dht cfg s.book
        s.made_book in
    let or_dht : (is_some s.book || is_some s.dht) ≡ is_some s.dht = ground (arith, used) in
    let asked =
      make_block_provider_routers-IsMade services.platform services.decode_peer cfg s.blocks
        s.made_blocks in
    let combined = λ (http blocks : List (Upstream A K)).
      combine_routers_lem (is_some s.book) (is_some s.dht) http blocks s.has_resolver
        cfg.dns_addr_resolution in
    let shape = λ (http blocks : List (Upstream A K)).
      combine_routers-IsCombined (is_some s.book) (is_some s.dht) http blocks s.has_resolver
        cfg.dns_addr_resolution in
    record {
      http = s.delegated;
      blocks = s.blocks;
      uses_dht = is_some s.dht;
      dht_type = sym (make_dht-disabled s.new_dht cfg.dht_type s.dht s.made_dht);
      providers = (combined (http_routers s.delegated.providers) (block_routers s.blocks)).0;
      peers = (combined (http_routers s.delegated.peers) []).0;
      ipns = (combined (http_routers s.delegated.ipns) []).0;
      providers_combined = shape (http_routers s.delegated.providers) (block_routers s.blocks);
      peers_combined = shape (http_routers s.delegated.peers) [];
      ipns_combined = shape (http_routers s.delegated.ipns) [];
      dht_for_providers =
          (combined (http_routers s.delegated.providers) (block_routers s.blocks)).1 ∙ or_dht;
      dht_for_peers = (combined (http_routers s.delegated.peers) []).1 ∙ or_dht;
      dht_for_ipns = (combined (http_routers s.delegated.ipns) []).1 ∙ or_dht;
      closest_peers =
          closest (Upstream A K) (is_some s.book) (is_some s.dht) s.has_resolver
            cfg.dns_addr_resolution;
      closest_router =
          dht_routers-ClosestRouter (Upstream A K) (is_some s.book) (is_some s.dht) s.has_resolver
            cfg.dns_addr_resolution;
      address_book = used;
      block_endpoints = asked.0;
      gateways = asked.1;
      timeout = routing_timeout_option-positive cfg.routing_timeout;
    }

-- A server that starts asks the DHT for providers, peers, IPNS records and closest peers, just when its
-- DHT type is not disabled, and caches addresses just when it asks the DHT and the cached address
-- book is on. The block providers are one gateway for each configured endpoint, and are asked for
-- providers only. No request gets a timeout of 0.
pub start-Serves :
    {A F N I K B C : Type 0} (services : Services A F N I K B C) (cfg : ServerConfig)
    (handler : Handler A K B)
    → start services cfg ≡ success handler
    → Serves services cfg handler
start-Serves services cfg handler h =
    let s = start-Started services cfg handler h in
    rw s.made_handler (handler-Serves services cfg handler s)
