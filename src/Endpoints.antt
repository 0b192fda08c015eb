-- ===== src/Endpoints.antt =====
-- server_delegated_routing.go: collectEndpoints and createDelegatedHTTPRouters. The map of
-- collectEndpoints is a list by first use; the order in which Go ranges over it is not specified, and
-- no theorem is about the order.
pub mod Capabilities
use someguy.Prelude.{
  Bool, true, false, ◌&&◌, not, Option, none, some, List, [], ◌∷◌, ◌++◌, is_empty, if◌then◌else◌,
}
use someguy.Prelude.Bytes.{Bytes, same}
use someguy.Records.{GoError}
use someguy.Routers.Compose.{Fallible, ok, fails}

-- The three lists of URLs in config, and what a URL of each list can do.
pub data Capability : Type 0 where
  providers_capability peers_capability ipns_capability : Capability

pub record Config : Type 0 where
  pub content_endpoints : List Bytes
  pub peer_endpoints : List Bytes
  pub ipns_endpoints : List Bytes

pub record EndpointConfig : Type 0 where
  pub base_url : Bytes
  pub providers : Bool
  pub peers : Bool
  pub ipns : Bool

unfoldable pub grant : Capability → EndpointConfig → EndpointConfig
grant providers_capability c = record c { providers = true }
grant peers_capability c = record c { peers = true }
grant ipns_capability c = record c { ipns = true }

abbrev pub blank : Bytes → EndpointConfig
blank url = record { base_url = url; providers = false; peers = false; ipns = false }

-- The body of a loop: the entry of the URL gets the capability, or a new entry is made.
unfoldable pub add_capability : Capability → Bytes → List EndpointConfig → List EndpointConfig
unfolding grant
add_capability k url [] = grant k (blank url) ∷ []
add_capability k url (c ∷ cs) =
    let rest = add_capability k url cs in if same c.base_url url then grant k c ∷ cs else c ∷ rest

unfoldable pub collect : Capability → List Bytes → List EndpointConfig → List EndpointConfig
unfolding add_capability
collect k [] caps = caps
collect k (url ∷ urls) caps =
    collect k urls (if is_empty url then caps else add_capability k url caps)

unfoldable pub collect_endpoints : Config → List EndpointConfig
unfolding collect
collect_endpoints cfg = collect ipns_capability cfg.ipns_endpoints (
    collect peers_capability cfg.peer_endpoints
      (collect providers_capability cfg.content_endpoints []))

-- The routers for each capability, in the order of the endpoints.
pub record Delegated (X : Type 0) : Type 0 where
  pub providers : List X
  pub peers : List X
  pub ipns : List X

abbrev if_able : {X : Type 0} → Bool → X → List X → List X
if_able b x xs = if b then xs ++ (x ∷ []) else xs

unfoldable pub create_each :
    {X : Type 0} → (Bytes → Fallible X) → List EndpointConfig → Delegated X → Fallible (Delegated X)
create_each new_client [] d = ok d
create_each new_client (c ∷ cs) d = elim (new_client c.base_url) [
  | fails e ↦ fails e
  | ok x ↦ create_each new_client cs (record {
    providers = if_able c.providers x d.providers;
    peers = if_able c.peers x d.peers;
    ipns = if_able c.ipns x d.ipns;
  })
]

-- `register` is the error of view.Register, if it has one.
unfoldable pub create_delegated_http_routers :
    {X : Type 0} → (Bytes → Fallible X) → Option GoError → Config → Fallible (Delegated X)
unfolding create_each collect_endpoints
create_delegated_http_routers new_client register cfg =
    elim (create_each new_client (collect_endpoints cfg)
      (record { providers = []; peers = []; ipns = [] })) [
        | fails e ↦ fails e
        | ok d ↦
            if is_empty d.providers && is_empty d.peers && is_empty d.ipns
            then ok d
            else elim register [ none ↦ ok d | some e ↦ fails e ]
      ]
