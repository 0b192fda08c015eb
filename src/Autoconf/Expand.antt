-- ===== src/Autoconf/Expand.antt =====
-- What a configuration asks of the delegated routers, and what collectEndpoints makes of it
-- (autoconf.go and server_delegated_routing.go).
use someguy.Prelude.{
  ◌≡◌, refl, ap, ◌∙◌, inl, inr, ◌⊎◌, true, false, Option, List, [], ◌∷◌, map, arith, is_empty,
}
use someguy.Prelude.Bytes.{Bytes, same, same_iff}
use someguy.Endpoints.{
  Capability, providers_capability, peers_capability, ipns_capability, Config, collect_endpoints,
}
use someguy.Endpoints.Capabilities.{offers, names, urls_for, collect_endpoints-offers}
use someguy.Autoconf.{
  AutoconfLib, Checked, valid, invalid, EndpointError, contains, deduplicate_endpoints,
  normalize_endpoint_url, validate_endpoint_urls, expand_valid, expand_delegated_routing_endpoints,
}
use someguy.Autoconf.Dedup.{contains-deduplicate_endpoints}
use someguy.Autoconf.Normalize.{base, normalize_endpoint_url_valid}

Checked-cases {ℓ} :
    {T : Type ℓ} (c : Checked T)
    → ((t : T) × (c ≡ valid t)) ⊎ ((e : EndpointError) × (c ≡ invalid e))
Checked-cases (valid t) = inl (t, refl)
Checked-cases (invalid e) = inr (e, refl)

names-contains :
    (url : Bytes) (us : List Bytes) → is_empty url ≡ false → names url us ≡ contains url us
unfolding contains
names-contains url [] h = refl
names-contains url (u ∷ us) h =
    ground (arith, names-contains url us h, same_iff u url, same_iff url u)

module _ {F I : Type 0} (lib : AutoconfLib F I) where
  normalize_auto :
      (k : Capability) (url b : Bytes)
      → same url lib.auto_placeholder ≡ true
      → normalize_endpoint_url lib k url ≡ valid b
      → same lib.auto_placeholder b ≡ true
  unfolding normalize_endpoint_url
  normalize_auto k url b h e =
      ground (arith, same_iff url lib.auto_placeholder, same_iff lib.auto_placeholder b)

  validate_endpoint_urls-base :
      (k : Capability) (urls bs : List Bytes)
      → validate_endpoint_urls lib k urls ≡ valid bs
      → contains lib.auto_placeholder bs ≡ false
      → bs ≡ map (base lib k) urls
  unfolding validate_endpoint_urls contains
  validate_endpoint_urls-base k [] bs h n = ground arith
  validate_endpoint_urls-base k (u ∷ us) bs h n =
      elim (Checked-cases (normalize_endpoint_url lib k u)) [
        | inr (e, q) ↦ absurd (ground arith)
        | inl (b, q) ↦ elim (Checked-cases (validate_endpoint_urls lib k us)) [
          | inr (e, r) ↦ absurd (ground arith)
          | inl (rest, r) ↦ ground (
            arith,
            validate_endpoint_urls-base k us rest r,
            normalize_endpoint_url_valid lib k u b,
            normalize_auto k u b,
          )
        ]
      ]

  valid_lists :
      (dht_type : Bytes) (auto_conf : Option F) (providers peers ipns : List Bytes)
      (cfg cfg' : Config)
      → validate_endpoint_urls lib providers_capability cfg.content_endpoints ≡ valid providers
      → validate_endpoint_urls lib peers_capability cfg.peer_endpoints ≡ valid peers
      → validate_endpoint_urls lib ipns_capability cfg.ipns_endpoints ≡ valid ipns
      → expand_valid lib false dht_type auto_conf providers peers ipns ≡ valid cfg'
      → (k : Capability)
      → urls_for k cfg' ≡ deduplicate_endpoints (map (base lib k) (urls_for k cfg))
  unfolding expand_valid
  valid_lists dht_type auto_conf providers peers ipns cfg cfg' p q r h k = ground (
    arith,
    validate_endpoint_urls-base providers_capability cfg.content_endpoints providers p,
    validate_endpoint_urls-base peers_capability cfg.peer_endpoints peers q,
    validate_endpoint_urls-base ipns_capability cfg.ipns_endpoints ipns r,
  )

  expand_lists :
      (dht_type : Bytes) (auto_conf : Option F) (cfg cfg' : Config)
      → expand_delegated_routing_endpoints lib false dht_type auto_conf cfg ≡ valid cfg'
      → (k : Capability)
      → urls_for k cfg' ≡ deduplicate_endpoints (map (base lib k) (urls_for k cfg))
  unfolding expand_delegated_routing_endpoints
  expand_lists dht_type auto_conf cfg cfg' h k =
      elim (Checked-cases (validate_endpoint_urls lib providers_capability cfg.content_endpoints)) [
        | inr (e, p) ↦ absurd (ground arith)
        | inl (providers, p) ↦
            elim (Checked-cases (validate_endpoint_urls lib peers_capability cfg.peer_endpoints)) [
              | inr (e, q) ↦ absurd (ground arith)
              | inl (peers, q) ↦
                  elim (Checked-cases
                    (validate_endpoint_urls lib ipns_capability cfg.ipns_endpoints)) [
                      | inr (e, r) ↦ absurd (ground arith)
                      | inl (ipns, r) ↦
                          valid_lists dht_type auto_conf providers peers ipns cfg cfg' p q r
                            (ground (arith, h)) k
                    ]
            ]
      ]

  -- Without autoconf a server that starts asks a base URL for what the configuration asks it for: the
  -- endpoint of a base URL, not empty, has a capability just when a URL in the list for it, without
  -- the routing path of the list if it ends in that, is the base URL.
  pub configured_capabilities :
      (dht_type : Bytes) (auto_conf : Option F) (cfg cfg' : Config) (k : Capability) (url : Bytes)
      → expand_delegated_routing_endpoints lib false dht_type auto_conf cfg ≡ valid cfg'
      → is_empty url ≡ false
      → offers k url (collect_endpoints cfg') ≡ contains url (map (base lib k) (urls_for k cfg))
  configured_capabilities dht_type auto_conf cfg cfg' k url h n =
      collect_endpoints-offers k url cfg'
      ∙ names-contains url (urls_for k cfg') n
      ∙ ap (contains url) (expand_lists dht_type auto_conf cfg cfg' h k)
      ∙ contains-deduplicate_endpoints url (map (base lib k) (urls_for k cfg))
