-- ===== src/Server/Steps.antt =====
-- What the steps of `start` of server.go gave, if it started a server.
use someguy.Server.Host.{new_host}
use someguy.CachedAddrBook.Background.{AddrBookOption}
use someguy.Autoconf.Client.{auto_conf_or_nil, start_auto_conf}
use someguy.Autoconf.{expand_delegated_routing_endpoints, get_bootstrap_peer_addr_infos}
use someguy.Prelude.{
  ◌≡◌, inl, inr, Bool, true, false, not, ◌&&◌, Option, none, some, List, arith, Option-cases,
  Bool-cases,
}
use someguy.Prelude.Bytes.{Bytes, codes, same, same_iff}
use someguy.Prelude.Try.{success, >>=-success}
use someguy.Records.{GoError}
use someguy.BlockRouter.{HttpBlockRouter}
use someguy.Endpoints.{Delegated, create_delegated_http_routers}
use someguy.Server.{
  ServerConfig, run, host_failed, DhtKind, accelerated_dht, standard_dht, make_dht, make_book,
  make_block_provider_routers, run_fallible, delegated_failed, tracing_failed, compression_failed,
  book_options,
}
use someguy.Server.Start.{
  Services, Handler, start, make_handler, make_resolver, checked, is_some, host_port,
}

module _ {A F N I K B C : Type 0} (services : Services A F N I K B C) where
  -- What the steps of start gave.
  pub record Started (cfg : ServerConfig) (handler : Handler A K B) : Type 0 where
    pub dht : Option DhtKind
    pub book : Option B
    pub blocks : List (HttpBlockRouter A)
    pub delegated : Delegated K
    pub has_resolver : Bool
    pub new_dht : DhtKind → Option GoError
    pub made_dht : make_dht new_dht cfg.dht_type ≡ success dht
    pub made_book :
        make_book services.new_cached_addr_book services.host_peerstore dht cfg ≡ success book
    pub made_blocks :
        make_block_provider_routers services.platform services.decode_peer cfg ≡ success blocks
    pub made_resolver :
        make_resolver services.new_dns_addr_resolver cfg.dns_addr_resolution ≡ success has_resolver
    pub made_handler : handler ≡ make_handler cfg dht book blocks delegated has_resolver

  pub start-Started :
      (cfg : ServerConfig) (handler : Handler A K B)
      → start services cfg ≡ success handler
      → Started cfg handler
  unfolding start
  start-Started cfg handler h =
      let auto_conf =
        auto_conf_or_nil
          (start_auto_conf services.autoconf_client services.version cfg.auto_conf) in
      let new_dht =
        services.new_dht
          (get_bootstrap_peer_addr_infos services.autoconf_lib cfg.dht_type auto_conf) in
      let (_, _, h1) =
        >>=-success (run host_failed (new_host services.host services.version cfg.host)) _ handler
          h in
      let (endpoints, _, h2) =
        >>=-success
          (checked (
            expand_delegated_routing_endpoints services.autoconf_lib cfg.auto_conf.enabled
              cfg.dht_type auto_conf cfg.endpoints))
          _ handler h1 in
      let (dht, made_dht, h3) = >>=-success (make_dht new_dht cfg.dht_type) _ handler h2 in
      let (book, made_book, h4) =
        >>=-success (make_book services.new_cached_addr_book services.host_peerstore dht cfg) _
          handler h3 in
      let (blocks, made_blocks, h5) =
        >>=-success (make_block_provider_routers services.platform services.decode_peer cfg) _
          handler h4 in
      let (delegated, _, h6) =
        >>=-success
          (run_fallible delegated_failed (
            create_delegated_http_routers services.new_http_router services.register_view
              endpoints))
          _ handler h5 in
      let (has_resolver, made_resolver, h7) =
        >>=-success (make_resolver services.new_dns_addr_resolver cfg.dns_addr_resolution) _ handler
          h6 in
      let (_, _, h8) =
        >>=-success (host_port (services.split_host_port cfg.listen_address)) _ handler h7 in
      let (_, _, h9) = >>=-success (run tracing_failed services.setup_tracing) _ handler h8 in
      let (_, _, made) =
        >>=-success (run compression_failed services.new_compression_adapter) _ handler h9 in
      record {
        dht = dht;
        book = book;
        blocks = blocks;
        delegated = delegated;
        has_resolver = has_resolver;
        new_dht = new_dht;
        made_dht = made_dht;
        made_book = made_book;
        made_blocks = made_blocks;
        made_resolver = made_resolver;
        made_handler = ground (arith, made);
      }

other_text : (s t u : Bytes) → same s t ≡ true → same t u ≡ false → same s u ≡ false
other_text s t u h n = ground (arith, same_iff s t, h)

pub make_dht-disabled :
    (new_dht : DhtKind → Option GoError) (dht_type : Bytes) (dht : Option DhtKind)
    → make_dht new_dht dht_type ≡ success dht
    → is_some dht ≡ not (same dht_type (codes "disabled"))
unfolding make_dht
make_dht-disabled new_dht dht_type dht h = ground (
  arith,
  h,
  Option-cases (new_dht accelerated_dht),
  Option-cases (new_dht standard_dht),
  other_text dht_type (codes "accelerated") (codes "disabled"),
  other_text dht_type (codes "standard") (codes "disabled"),
)

pub make_book-used :
    {A B : Type 0} (new_book : List (AddrBookOption A) → Option B) (peerstore : Bytes → List A)
    (dht : Option DhtKind) (cfg : ServerConfig) (book : Option B)
    → make_book new_book peerstore dht cfg ≡ success book
    → is_some book ≡ (cfg.cached_addr_book && is_some dht)
unfolding make_book
make_book-used new_book peerstore none cfg book h = ground (arith, Bool-cases cfg.cached_addr_book)
make_book-used new_book peerstore (some dht) cfg book h = elim (Bool-cases cfg.cached_addr_book) [
  | inr e ↦ ground arith
  | inl e ↦ elim (Option-cases (new_book (book_options peerstore cfg))) [
    | inl n ↦ absurd (ground arith)
    | inr (b, q) ↦ ground arith
  ]
]
