-- ===== src/Endpoints/Capabilities.antt =====
-- The endpoints that collectEndpoints of server_delegated_routing.go makes, and what they can do.
use someguy.Prelude.{
  ◌≡◌, refl, inl, inr, Bool, true, false, not, ◌&&◌, ◌||◌, List, [], ◌∷◌, is_empty, All, arith,
  Bool-cases,
}
use someguy.Prelude.Bytes.{Bytes, same, same_iff}
use someguy.Endpoints.{
  Capability, providers_capability, peers_capability, ipns_capability, Config, EndpointConfig,
  grant, blank, add_capability, collect, collect_endpoints,
}

-- No two entries have the same URL.
abbrev pub IsDistinct : List EndpointConfig → Type 0
IsDistinct [] = Unit
IsDistinct (c ∷ cs) = All (λ d. same d.base_url c.base_url ≡ false) cs × IsDistinct cs

grant-base_url : (k : Capability) (c : EndpointConfig) → (grant k c).base_url ≡ c.base_url
unfolding grant
grant-base_url providers_capability c = refl
grant-base_url peers_capability c = refl
grant-base_url ipns_capability c = refl

add_capability-All :
    (k : Capability) (url x : Bytes) (caps : List EndpointConfig)
    → same url x ≡ false
    → All (λ d. same d.base_url x ≡ false) caps
    → All (λ d. same d.base_url x ≡ false) (add_capability k url caps)
unfolding add_capability
add_capability-All k url x [] h a = (rw (grant-base_url k (blank url)) h, tt)
add_capability-All k url x (c ∷ cs) h a = elim (Bool-cases (same c.base_url url)) [
  | inl e ↦ rw (e, add_capability) (rw (grant-base_url k c) a.0, a.1)
  | inr e ↦ rw (e, add_capability) (a.0, add_capability-All k url x cs h a.1)
]

add_capability-IsDistinct :
    (k : Capability) (url : Bytes) (caps : List EndpointConfig)
    → IsDistinct caps
    → IsDistinct (add_capability k url caps)
unfolding add_capability
add_capability-IsDistinct k url [] h = (tt, tt)
add_capability-IsDistinct k url (c ∷ cs) h = elim (Bool-cases (same c.base_url url)) [
  | inl e ↦ rw (e, add_capability) (rw (grant-base_url k c) h.0, h.1)
  | inr e ↦
      rw (e, add_capability)
        (
          add_capability-All k url c.base_url cs
              (ground (arith, same_iff c.base_url url, same_iff url c.base_url)) h.0,
          add_capability-IsDistinct k url cs h.1,
        )
]

collect-IsDistinct :
    (k : Capability) (urls : List Bytes) (caps : List EndpointConfig)
    → IsDistinct caps
    → IsDistinct (collect k urls caps)
unfolding collect
collect-IsDistinct k [] caps h = h
collect-IsDistinct k (url ∷ urls) caps h = elim (Bool-cases (is_empty url)) [
  | inl e ↦ rw (e, collect) (collect-IsDistinct k urls caps h)
  | inr e ↦
      rw (e, collect)
        (collect-IsDistinct k urls (add_capability k url caps)
          (add_capability-IsDistinct k url caps h))
]

-- Each base URL has one endpoint, and so one client, in however many lists it stands and however often.
collect_endpoints-IsDistinct : (cfg : Config) → IsDistinct (collect_endpoints cfg)
unfolding collect_endpoints
collect_endpoints-IsDistinct cfg = collect-IsDistinct ipns_capability cfg.ipns_endpoints _ (
    collect-IsDistinct peers_capability cfg.peer_endpoints _
      (collect-IsDistinct providers_capability cfg.content_endpoints [] tt))

abbrev pub can : Capability → EndpointConfig → Bool
can providers_capability c = c.providers
can peers_capability c = c.peers
can ipns_capability c = c.ipns

abbrev same_capability : Capability → Capability → Bool
same_capability providers_capability providers_capability = true
same_capability peers_capability peers_capability = true
same_capability ipns_capability ipns_capability = true
same_capability j k = false

-- An endpoint of the URL has the capability.
abbrev pub offers : Capability → Bytes → List EndpointConfig → Bool
offers k url [] = false
offers k url (c ∷ cs) = let rest = offers k url cs in (same c.base_url url && can k c) || rest

-- The URL stands in a list, and is not empty.
abbrev pub names : Bytes → List Bytes → Bool
names url [] = false
names url (u ∷ us) = let rest = names url us in (not (is_empty u) && same u url) || rest

can-grant :
    (k j : Capability) (c : EndpointConfig) → can k (grant j c) ≡ (same_capability k j || can k c)
unfolding grant
can-grant k j c = ground arith

can-blank : (k : Capability) (u : Bytes) → can k (blank u) ≡ false
can-blank k u = ground arith

offers-add :
    (k j : Capability) (url u : Bytes) (caps : List EndpointConfig)
    → offers k url (add_capability j u caps)
      ≡ ((same_capability k j && same u url) || offers k url caps)
unfolding add_capability
offers-add k j url u [] =
    ground (arith, grant-base_url j (blank u), can-grant k j (blank u), can-blank k u)
offers-add k j url u (c ∷ cs) =
    ground
      (arith, grant-base_url j c, can-grant k j c, offers-add k j url u cs, same_iff c.base_url u)

offers-collect :
    (k j : Capability) (url : Bytes) (urls : List Bytes) (caps : List EndpointConfig)
    → offers k url (collect j urls caps)
      ≡ ((same_capability k j && names url urls) || offers k url caps)
unfolding collect
offers-collect k j url [] caps = ground arith
offers-collect k j url (u ∷ us) caps = elim (Bool-cases (is_empty u)) [
  | inl e ↦ rw (e, collect) (ground (arith, offers-collect k j url us caps))
  | inr e ↦
      rw (e, collect)
        (ground
          (arith, offers-collect k j url us (add_capability j u caps), offers-add k j url u caps))
]

-- The list that gives a URL a capability.
abbrev pub urls_for : Capability → Config → List Bytes
urls_for providers_capability cfg = cfg.content_endpoints
urls_for peers_capability cfg = cfg.peer_endpoints
urls_for ipns_capability cfg = cfg.ipns_endpoints

-- The endpoint of a URL has a capability just when the URL, not empty, stands in the list for that
-- capability: no list grants what another asks for, and no list takes it away.
pub collect_endpoints-offers :
    (k : Capability) (url : Bytes) (cfg : Config)
    → offers k url (collect_endpoints cfg) ≡ names url (urls_for k cfg)
unfolding collect_endpoints
collect_endpoints-offers k url cfg = ground (
  arith,
  offers-collect k ipns_capability url cfg.ipns_endpoints after_peers,
  offers-collect k peers_capability url cfg.peer_endpoints after_providers,
  offers-collect k providers_capability url cfg.content_endpoints [],
)
  where
    after_providers : List EndpointConfig
    after_providers = collect providers_capability cfg.content_endpoints []

    after_peers : List EndpointConfig
    after_peers = collect peers_capability cfg.peer_endpoints after_providers
