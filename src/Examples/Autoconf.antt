-- ===== src/Examples/Autoconf.antt =====
-- Endpoints with and without routing paths, and what `ask` makes of them.
use someguy.Prelude.{
  ℕ, ◌≡◌, ◌≢◌, ◌↔◌, refl, true, false, none, some, List, [], ◌∷◌, ◌++◌, map, arith,
}
use someguy.Prelude.Bytes.{Bytes, codes, same, cut_suffix, bytes_compare}
use someguy.Prelude.Suffix.{has_suffix}
use someguy.Prelude.Sort.{sort_func}
use someguy.Prelude.Try.{success, refused}
use someguy.Endpoints.{
  Capability, providers_capability, peers_capability, ipns_capability, Config, collect_endpoints,
}
use someguy.Endpoints.Capabilities.{offers, urls_for}
use someguy.Autoconf.{
  valid, mismatched_path, auto_without_autoconf, contains, deduplicate_endpoints,
  strip_routing_paths, normalize_endpoint_url, validate_endpoint_urls,
  expand_delegated_routing_endpoints,
}
use someguy.Autoconf.Dedup.{IsAscending, deduplicate_endpoints-canonical}
use someguy.Autoconf.Normalize.{base, normalize_endpoint_url-append, EndInNoSlash, trailing_slash}
use someguy.Autoconf.Expand.{configured_capabilities}
use someguy.Cli.{invalid_endpoint}
use someguy.Cli.Ask.{Parsers, get_closest_peers, findpeers, getclosestpeers, AskFlags, ask}
use someguy.Cli.Endpoint.{ask_auto, ask_findpeers_rejects}
use someguy.Samples.Services.{path_letter, autoconf_lib, autoconf_client}

abbrev urls : List Bytes
urls = codes "b" ∷ codes "a" ∷ codes "b" ∷ []

deduplicate_endpoints_test : deduplicate_endpoints urls ≡ codes "a" ∷ codes "b" ∷ []
unfolding deduplicate_endpoints sort_func bytes_compare
deduplicate_endpoints_test = refl

deduplicate_endpoints-canonical_example :
    IsAscending (deduplicate_endpoints urls)
    × ((deduplicate_endpoints urls ≡ deduplicate_endpoints (codes "a" ∷ codes "b" ∷ []))
        ↔ ((u : Bytes) → contains u urls ≡ contains u (codes "a" ∷ codes "b" ∷ [])))
deduplicate_endpoints-canonical_example =
    deduplicate_endpoints-canonical urls (codes "a" ∷ codes "b" ∷ [])

not_auto : same (codes "xQ") (codes "auto") ≡ false
unfolding same
not_auto = refl

not_providers : has_suffix (codes "xQ") (codes "P") ≡ false
unfolding has_suffix
not_providers = refl

normalize_endpoint_url-append_example :
    normalize_endpoint_url autoconf_lib peers_capability (codes "x" ++ codes "Q")
    ≡ valid (codes "x")
normalize_endpoint_url-append_example =
    normalize_endpoint_url-append autoconf_lib peers_capability (codes "x") not_auto

abbrev configured : Config
configured = record {
  content_endpoints = codes "xP" ∷ codes "y" ∷ [];
  peer_endpoints = codes "xQ" ∷ [];
  ipns_endpoints = [];
}

abbrev expanded : Config
expanded = record {
  content_endpoints = codes "x" ∷ codes "y" ∷ [];
  peer_endpoints = codes "x" ∷ [];
  ipns_endpoints = [];
}

configured_expands :
    expand_delegated_routing_endpoints autoconf_lib false (codes "disabled") none configured
    ≡ valid expanded
unfolding expand_delegated_routing_endpoints sort_func bytes_compare
configured_expands = refl

configured_capabilities_example :
    offers peers_capability (codes "x") (collect_endpoints expanded)
    ≡ contains
        (codes "x")
        (map (base autoconf_lib peers_capability) (urls_for peers_capability configured))
configured_capabilities_example =
    configured_capabilities autoconf_lib (codes "disabled") none configured expanded
      peers_capability (codes "x") configured_expands refl

no_slash : (x : ℕ) (url : Bytes) → x ≢ b'/' → cut_suffix (x ∷ []) (url ++ codes "/") ≡ none
unfolding cut_suffix same
no_slash x [] h = ground arith
no_slash x (c ∷ []) h = ground arith
no_slash x (c ∷ d ∷ url) h = ground (arith, no_slash x (d ∷ url) h)

letters_not_slash : (k : Capability) → path_letter k ≢ b'/'
letters_not_slash providers_capability = omega arith
letters_not_slash peers_capability = omega arith
letters_not_slash ipns_capability = omega arith

paths_no_slash : EndInNoSlash autoconf_lib
paths_no_slash k url = no_slash (path_letter k) url (letters_not_slash k)

trailing_slash_example :
    (validate_endpoint_urls autoconf_lib providers_capability (codes "xQ/" ∷ [])
      ≡ valid (codes "xQ/" ∷ []))
    × (deduplicate_endpoints (codes "xQ/" ∷ []) ≡ codes "xQ/" ∷ [])
    × (strip_routing_paths (codes "xQ/" ∷ []) (codes "Q") ≡ codes "x" ∷ [])
trailing_slash_example =
    trailing_slash autoconf_lib providers_capability (codes "x") (codes "Q") paths_no_slash

-- Every text is a peer ID, a CID and a name.
abbrev parsers : Parsers Bytes Bytes Bytes
parsers = record {
  decode_peer = λ s. some s;
  parse_cid = λ s. some s;
  to_cid = λ p. p;
  parse_name = λ s. some s;
  decode_multibase = λ s. some s;
}

abbrev flags : Bytes → AskFlags
flags endpoint = record {
  endpoint = endpoint;
  pretty = true;
  auto_conf = record { enabled = false; url = []; refresh_interval = 0; cache_dir = [] };
}

auto_is_auto : same (codes "auto") (codes "auto") ≡ true
unfolding same
auto_is_auto = refl

ask_auto_example :
    (ask parsers autoconf_client autoconf_lib
        (codes "v")
        findpeers
        (codes "p" ∷ [])
        (flags (codes "auto"))
      ≡ refused (invalid_endpoint auto_without_autoconf))
    × (ask parsers autoconf_client autoconf_lib
          (codes "v")
          getclosestpeers
          (codes "p" ∷ [])
          (flags (codes "auto"))
        ≡ success (get_closest_peers (codes "p") (codes "auto") true))
ask_auto_example =
    ask_auto parsers autoconf_client autoconf_lib (codes "v") (flags (codes "auto")) (codes "p")
      (codes "p") auto_is_auto refl refl

ask_findpeers_rejects_example :
    (path : Bytes) × (ask parsers autoconf_client autoconf_lib
        (codes "v")
        findpeers
        (codes "p" ∷ [])
        (flags (codes "xQ"))
      ≡ refused (invalid_endpoint (mismatched_path providers_capability (codes "xQ") path)))
    × (has_suffix (codes "xQ") path ≡ true)
ask_findpeers_rejects_example =
    ask_findpeers_rejects parsers autoconf_client autoconf_lib (codes "v") (flags (codes "xQ"))
      (codes "x") (codes "p") (codes "p") refl refl not_auto not_providers
