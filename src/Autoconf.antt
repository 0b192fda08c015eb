-- ===== src/Autoconf.antt =====
-- autoconf.go: the endpoints that a server is configured with, checked and reduced to base URLs.
pub mod Dedup
pub mod Normalize
pub mod Expand
pub mod Client
use someguy.Prelude.{
  Bool, true, false, ◌&&◌, ◌||◌, not, Option, none, some, List, [], ◌∷◌, any_of, is_empty,
  if◌then◌else◌,
}
use someguy.Prelude.Bytes.{Bytes, codes, same, cut_suffix, trim_suffix, bytes_compare}
use someguy.Prelude.Suffix.{has_suffix}
use someguy.Prelude.Sort.{sort_func}
use someguy.Endpoints.{Capability, providers_capability, peers_capability, ipns_capability, Config}

-- The constants of boxo's autoconf, and its functions. F is a configuration that was fetched, I an
-- address of a bootstrap peer.
pub record AutoconfLib (F I : Type 0) : Type 0 where
  pub auto_placeholder : Bytes
  pub routing_path : Capability → Bytes
  pub system_amino_dht : Bytes
  pub expand_delegated_endpoints : List Bytes → Option F → List Bytes → Bytes → List Bytes
  pub get_bootstrap_peers : F → List Bytes → List Bytes
  pub fallback_bootstrap_peers : List Bytes
  -- multiaddr.NewMultiaddr and peer.AddrInfoFromP2pAddr; none is an error of either.
  pub peer_addr_info : Bytes → Option I

-- The errors that expandDelegatedRoutingEndpoints makes.
pub data EndpointError : Type 0 where
  mismatched_path : (flag : Capability) → (url path : Bytes) → EndpointError
  auto_without_autoconf : EndpointError

pub data Checked {ℓ} (T : Type ℓ) : Type ℓ where
  valid : T → Checked T
  invalid : EndpointError → Checked T

-- slices.Contains
unfoldable pub contains : Bytes → List Bytes → Bool
unfolding same
contains url urls = any_of (same url) urls

-- slices.Compact
unfoldable pub compact : List Bytes → List Bytes
unfolding same
compact [] = []
compact (x ∷ []) = x ∷ []
compact (x ∷ y ∷ rest) =
    let compacted = compact (y ∷ rest) in if same x y then compacted else x ∷ compacted

unfoldable pub deduplicate_endpoints : List Bytes → List Bytes
unfolding compact
deduplicate_endpoints endpoints =
    if is_empty endpoints then endpoints else compact (sort_func bytes_compare endpoints)

abbrev trim_path : Bytes → List Bytes → List Bytes
trim_path path [] = []
trim_path path (url ∷ urls) = trim_suffix path (trim_suffix (codes "/") url) ∷ trim_path path urls

unfoldable pub strip_routing_paths : List Bytes → Bytes → List Bytes
unfolding deduplicate_endpoints
strip_routing_paths urls expected_path = deduplicate_endpoints (trim_path expected_path urls)

unfoldable pub get_native_systems : Bytes → Bytes → List Bytes
get_native_systems amino_dht routing_type =
    if contains routing_type
      (codes "dht" ∷ codes "accelerated" ∷ codes "standard" ∷ codes "auto" ∷ [])
    then amino_dht ∷ []
    else []

module _ {F I : Type 0} (lib : AutoconfLib F I) where
  -- The first of the routing paths that a URL ends in.
  abbrev first_path : Bytes → List Capability → Option Bytes
  first_path url [] = none
  first_path url (k ∷ ks) =
      let rest = first_path url ks in
      if has_suffix url (lib.routing_path k) then some (lib.routing_path k) else rest

  unfoldable pub normalize_endpoint_url : Capability → Bytes → Checked Bytes
  unfolding has_suffix
  normalize_endpoint_url flag url =
      if same url lib.auto_placeholder
      then valid url
      else elim (cut_suffix (lib.routing_path flag) url) [
        | some before ↦ valid before
        | none ↦
            elim (first_path url (providers_capability ∷ peers_capability ∷ ipns_capability ∷ [])) [
              | some path ↦ invalid (mismatched_path flag url path)
              | none ↦ valid url
            ]
      ]

  abbrev pub cons_checked : Checked Bytes → Checked (List Bytes) → Checked (List Bytes)
  cons_checked (invalid e) rest = invalid e
  cons_checked (valid url) (invalid e) = invalid e
  cons_checked (valid url) (valid urls) = valid (url ∷ urls)

  -- The loop stops at the first error.
  unfoldable pub validate_endpoint_urls : Capability → List Bytes → Checked (List Bytes)
  unfolding normalize_endpoint_url
  validate_endpoint_urls flag [] = valid []
  validate_endpoint_urls flag (url ∷ urls) =
      cons_checked (normalize_endpoint_url flag url) (validate_endpoint_urls flag urls)

  abbrev expanded : Option F → List Bytes → Capability → List Bytes → List Bytes
  expanded auto_conf native_systems k urls =
      strip_routing_paths
        (lib.expand_delegated_endpoints urls auto_conf native_systems (lib.routing_path k))
        (lib.routing_path k)

  -- The part after the three lists are validated.
  unfoldable pub expand_valid :
      Bool → Bytes → Option F → List Bytes → List Bytes → List Bytes → Checked Config
  unfolding contains deduplicate_endpoints
  expand_valid false dht_type auto_conf providers peers ipns =
      if contains lib.auto_placeholder providers
        || contains lib.auto_placeholder peers
        || contains lib.auto_placeholder ipns
      then invalid auto_without_autoconf
      else valid (record {
        content_endpoints = deduplicate_endpoints providers;
        peer_endpoints = deduplicate_endpoints peers;
        ipns_endpoints = deduplicate_endpoints ipns;
      })
  expand_valid true dht_type auto_conf providers peers ipns =
      let native_systems = get_native_systems lib.system_amino_dht dht_type in
      valid (record {
        content_endpoints = expanded auto_conf native_systems providers_capability providers;
        peer_endpoints = expanded auto_conf native_systems peers_capability peers;
        ipns_endpoints = expanded auto_conf native_systems ipns_capability ipns;
      })

  -- The new endpoints of the config, which the code assigns in place.
  unfoldable pub expand_delegated_routing_endpoints :
      Bool → Bytes → Option F → Config → Checked Config
  unfolding validate_endpoint_urls expand_valid
  expand_delegated_routing_endpoints autoconf_enabled dht_type auto_conf cfg =
      elim (validate_endpoint_urls providers_capability cfg.content_endpoints) [
        | invalid e ↦ invalid e
        | valid providers ↦ elim (validate_endpoint_urls peers_capability cfg.peer_endpoints) [
          | invalid e ↦ invalid e
          | valid peers ↦ elim (validate_endpoint_urls ipns_capability cfg.ipns_endpoints) [
            | invalid e ↦ invalid e
            | valid ipns ↦ expand_valid autoconf_enabled dht_type auto_conf providers peers ipns
          ]
        ]
      ]

  -- Addresses that do not parse, or name no peer, are skipped.
  unfoldable pub strings_to_peer_addr_infos : List Bytes → List I
  strings_to_peer_addr_infos [] = []
  strings_to_peer_addr_infos (s ∷ ss) =
      let rest = strings_to_peer_addr_infos ss in
      elim (lib.peer_addr_info s) [ none ↦ rest | some info ↦ info ∷ rest ]

  unfoldable pub get_bootstrap_peer_addr_infos : Bytes → Option F → List I
  unfolding strings_to_peer_addr_infos
  get_bootstrap_peer_addr_infos dht_type none =
      strings_to_peer_addr_infos lib.fallback_bootstrap_peers
  get_bootstrap_peer_addr_infos dht_type (some f) =
      strings_to_peer_addr_infos
        (lib.get_bootstrap_peers f (get_native_systems lib.system_amino_dht dht_type))
