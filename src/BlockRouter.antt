-- ===== src/BlockRouter.antt =====
-- http_block_router.go: a router that asks a trustless gateway whether it serves a block.
pub mod Accepts
pub mod Secure
use someguy.Prelude.{
  ℕ, zero, ◌*◌, Bool, true, false, not, ◌&&◌, ◌||◌, Option, none, some, List, [], ◌∷◌, ◌++◌, any_of,
  is_empty, ◌==◌, if◌then◌else◌,
}
use someguy.Prelude.Bytes.{Bytes, codes, same}
use someguy.Prelude.Int.{ℤ, pos}
use someguy.Prelude.Try.{Try, success, refused}
use someguy.Prelude.Decimal.{atoi, format_int}
use someguy.Context.{second}
use someguy.Records.{GoError, Record, peer_record, schema_peer, Result}
use someguy.Routers.Compose.{Fallible, ok, fails}

-- The part of a *url.URL that is read, by its fields and methods.
pub record Url : Type 0 where
  pub scheme : Bytes
  pub hostname : Bytes
  pub port : Bytes
  pub escaped_path : Bytes

-- http.DefaultTransport, one that does not verify certificates, or one that is given.
pub data Transport : Type 0 where
  default_transport insecure_transport : Transport
  limited_transport : (round_tripper : Transport) → (limit_bytes : ℕ) → Transport

-- An http.Client; a timeout of 0 is none.
pub record HttpClient : Type 0 where
  pub timeout : ℕ
  pub transport : Transport

-- url.Parse, net.ParseIP(h) != nil, the environment, and multiaddr.NewMultiaddr; none is an error.
pub record Platform (A : Type 0) : Type 0 where
  pub parse_url : Bytes → Option Url
  pub is_ip : Bytes → Bool
  pub debug_env : Bytes
  pub new_multiaddr : Bytes → Option A

-- The errors of newHTTPBlockRouter.
pub data BlockError : Type 0 where
  bad_endpoint only_https path_in_url bad_multiaddr : (endpoint : Bytes) → BlockError
  unsupported_scheme : (scheme : Bytes) → BlockError
  invalid_port : (port : Bytes) → BlockError

pub record HttpBlockRouter (A : Type 0) : Type 0 where
  pub endpoint : Bytes
  pub endpoint_ma : A
  pub peer_id : Bytes
  -- Never nil: the constructor is the only place that makes one.
  pub http_client : HttpClient

abbrev http_block_router_timeout : ℕ
http_block_router_timeout = 5 * second

unfoldable pub default_http_block_router_client : Bool → HttpClient
default_http_block_router_client insecure_skip_verify = record {
  timeout = http_block_router_timeout;
  transport =
      limited_transport (if insecure_skip_verify then insecure_transport else default_transport)
        4096;
}

unfoldable pub client_or_default : Option HttpClient → HttpClient
unfolding default_http_block_router_client
client_or_default none = default_http_block_router_client false
client_or_default (some client) =
    if client.timeout == 0 then record client { timeout = http_block_router_timeout } else client

unfoldable pub host_component : Bool → Bytes → Bytes
host_component is_ip h =
    if not is_ip
    then codes "dns"
    else if any_of (λ c. c == b':') h
    then codes "ip6"
    else codes "ip4"

-- The port of the URL, or the one of its scheme; none is an error of Atoi.
unfoldable pub url_port : Url → Option ℤ
unfolding same atoi
url_port u =
    if not (is_empty u.port)
    then atoi u.port
    else if same u.scheme (codes "https")
    then some (pos 443)
    else some (pos 80)

-- none rejects HTTP without encryption.
unfoldable pub tls_component : Bytes → Bytes → Option Bytes
unfolding same
tls_component scheme debug_env =
    if same scheme (codes "https")
    then some (codes "/tls")
    else if same debug_env (codes "true")
    then some []
    else none

unfoldable pub endpoint_text : Bytes → Bytes → ℤ → Bytes → Bytes
unfolding format_int
endpoint_text host h port tls =
    codes "/" ++ host ++ codes "/" ++ h ++ codes "/tcp/" ++ format_int port ++ tls ++ codes "/http"

module _ {A : Type 0} (platform : Platform A) where
  -- After the port is known.
  unfoldable pub with_port :
      Bytes → Bytes → HttpClient → Url → ℤ → Try BlockError (HttpBlockRouter A)
  unfolding host_component tls_component endpoint_text same
  with_port endpoint p client u port = elim (tls_component u.scheme platform.debug_env) [
    | none ↦ refused (only_https endpoint)
    | some tls ↦
        if not (is_empty u.escaped_path) && not (same u.escaped_path (codes "/"))
        then refused (path_in_url endpoint)
        else elim (platform.new_multiaddr (
            endpoint_text (host_component (platform.is_ip u.hostname) u.hostname) u.hostname port
              tls)) [
                | none ↦ refused (bad_multiaddr endpoint)
                | some ma ↦ success (record {
                  endpoint = endpoint;
                  endpoint_ma = ma;
                  peer_id = p;
                  http_client = client;
                })
              ]
  ]

  unfoldable pub new_http_block_router :
      Bytes → Bytes → Option HttpClient → Try BlockError (HttpBlockRouter A)
  unfolding client_or_default url_port with_port same
  new_http_block_router endpoint p client = elim (platform.parse_url endpoint) [
    | none ↦ refused (bad_endpoint endpoint)
    | some u ↦
        if not (same u.scheme (codes "http")) && not (same u.scheme (codes "https"))
        then refused (unsupported_scheme u.scheme)
        else elim (url_port u) [
          | none ↦ refused (invalid_port u.port)
          | some port ↦ with_port endpoint p (client_or_default client) u port
        ]
  ]

-- `new_request` is the error of http.NewRequestWithContext for a URL, and `head` the status of the
-- response to the request, none for an error.
module _ {A : Type 0} (new_request : Bytes → Option GoError)
    (head : HttpClient → Bytes → Option ℕ) where
  abbrev block_url : HttpBlockRouter A → Bytes → Bytes
  block_url h c = h.endpoint ++ codes "/ipfs/" ++ c ++ codes "?format=raw"

  abbrev pub gateway_record : HttpBlockRouter A → Record A
  gateway_record h = peer_record (record {
    schema = schema_peer;
    id = some h.peer_id;
    addrs = h.endpoint_ma ∷ [];
    protocols = codes "transport-ipfs-gateway-http" ∷ [];
  })

  -- Whatever the limit is.
  unfoldable pub find_providers :
      HttpBlockRouter A → Bytes → ℕ → Fallible (List (Result (Record A)))
  find_providers h c limit = elim (new_request (block_url h c)) [
    | some e ↦ fails e
    | none ↦ elim (head h.http_client (block_url h c)) [
      | none ↦ ok []
      | some status ↦
          if status == 200
          then ok (record { val = some (gateway_record h); err = none } ∷ [])
          else ok []
    ]
  ]
