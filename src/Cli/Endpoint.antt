-- ===== src/Cli/Endpoint.antt =====
-- The endpoint that a subcommand of `ask` queries, for what is given as --endpoint.
use someguy.Prelude.{◌≡◌, true, false, some, [], ◌∷◌, ◌++◌, arith}
use someguy.Prelude.Bytes.{Bytes, same, same_iff}
use someguy.Prelude.Try.{success, refused}
use someguy.Prelude.Suffix.{same_refl, has_suffix}
use someguy.Endpoints.{Capability, providers_capability, peers_capability}
use someguy.Autoconf.{
  AutoconfLib, invalid, EndpointError, mismatched_path, auto_without_autoconf, contains,
  normalize_endpoint_url, validate_endpoint_urls, expand_valid, expand_delegated_routing_endpoints,
}
use someguy.Autoconf.Normalize.{normalize_endpoint_url_rejects}
use someguy.Autoconf.Client.{AutoconfClient}
use someguy.Cli.{invalid_endpoint}
use someguy.Cli.Ask.{
  Parsers, get_closest_peers, findpeers, getclosestpeers, AskFlags, expanded_endpoint, ask,
  parse_key,
}

module _ {P D M F N I : Type 0} (parsers : Parsers P D M) (boxo : AutoconfClient F N)
    (lib : AutoconfLib F I) (version : Bytes) where
  expanded_endpoint_auto :
      (flags : AskFlags)
      → same flags.endpoint lib.auto_placeholder ≡ true
      → flags.auto_conf.enabled ≡ false
      → expanded_endpoint parsers boxo lib version flags
        ≡ refused (invalid_endpoint auto_without_autoconf)
  unfolding expanded_endpoint expand_delegated_routing_endpoints validate_endpoint_urls
      normalize_endpoint_url expand_valid contains
  expanded_endpoint_auto flags h e =
      ground
        (arith, h, e, same_iff flags.endpoint lib.auto_placeholder, same_refl lib.auto_placeholder)

  -- Without autoconf the endpoint `auto` stops findpeers, with the error that says so, but
  -- getclosestpeers sends its request to `auto` as if that was a URL. The argument is one that
  -- both take.
  pub ask_auto :
      (flags : AskFlags) (arg : Bytes) (p : P)
      → same flags.endpoint lib.auto_placeholder ≡ true
      → flags.auto_conf.enabled ≡ false
      → parsers.decode_peer arg ≡ some p
      → (ask parsers boxo lib version findpeers (arg ∷ []) flags
          ≡ refused (invalid_endpoint auto_without_autoconf))
        × (ask parsers boxo lib version getclosestpeers (arg ∷ []) flags
            ≡ success (get_closest_peers (parsers.to_cid p) lib.auto_placeholder flags.pretty))
  unfolding ask parse_key
  ask_auto flags arg p h e q = (
    ground (arith, q, expanded_endpoint_auto flags h e),
    ground (arith, q, (same_iff flags.endpoint lib.auto_placeholder).0 h),
  )

  expanded_endpoint_mismatch :
      (flags : AskFlags) (err : EndpointError)
      → normalize_endpoint_url lib providers_capability flags.endpoint ≡ invalid err
      → expanded_endpoint parsers boxo lib version flags ≡ refused (invalid_endpoint err)
  unfolding expanded_endpoint expand_delegated_routing_endpoints validate_endpoint_urls
  expanded_endpoint_mismatch flags err h = ground (arith, h)

  mismatch_at :
      (k : Capability) (s t path : Bytes)
      → s ≡ t
      → normalize_endpoint_url lib k t ≡ invalid (mismatched_path k t path)
      → normalize_endpoint_url lib k s ≡ invalid (mismatched_path k s path)
  mismatch_at k s t path e h = cc (e, h)

  -- findpeers rejects an endpoint that ends in the routing path of peers, whatever stands before it,
  -- since it is checked as an endpoint for providers. The endpoint is not `auto` and does not
  -- end in the routing path of providers too.
  pub ask_findpeers_rejects :
      (flags : AskFlags) (url arg : Bytes) (p : P)
      → parsers.decode_peer arg ≡ some p
      → flags.endpoint ≡ url ++ lib.routing_path peers_capability
      → same (url ++ lib.routing_path peers_capability) lib.auto_placeholder ≡ false
      → has_suffix
          (url ++ lib.routing_path peers_capability)
          (lib.routing_path providers_capability)
        ≡ false
      → (path : Bytes) × (ask parsers boxo lib version findpeers (arg ∷ []) flags
          ≡ refused (invalid_endpoint (mismatched_path providers_capability flags.endpoint path)))
        × (has_suffix flags.endpoint path ≡ true)
  unfolding ask
  ask_findpeers_rejects flags url arg p q e a n =
      let (path, rejected, ends) =
        normalize_endpoint_url_rejects lib providers_capability peers_capability url a n in
      (
        path,
        ground (
          arith,
          q,
          expanded_endpoint_mismatch flags
              (mismatched_path providers_capability flags.endpoint path)
              (mismatch_at providers_capability flags.endpoint
                (url ++ lib.routing_path peers_capability) path e rejected),
        ),
        rw e ends,
      )
