-- ===== src/BlockRouter/Accepts.antt =====
-- What newHTTPBlockRouter of http_block_router.go accepts, and what it makes of it.
use someguy.Prelude.{
  ◌<◌, ◌≡◌, refl, ap, sym, ◌↔◌, ◌⊎◌, inl, inr, true, false, not, ◌&&◌, Option, none, some, [], ◌∷◌,
  arith, is_empty, Option-cases, Bool-cases,
}
use someguy.Prelude.Bytes.{Bytes, codes, same, same_iff}
use someguy.Prelude.Int.{ℤ}
use someguy.Prelude.Try.{success}
use someguy.BlockRouter.{
  Url, Platform, HttpClient, HttpBlockRouter, new_http_block_router, client_or_default, url_port,
  tls_component, host_component, endpoint_text, with_port,
}

module _ {A : Type 0} (platform : Platform A) where
  -- What the code checks of an endpoint, and what it makes of it.
  pub record IsGateway (endpoint p : Bytes) (client : Option HttpClient) (r : HttpBlockRouter A)
      : Type 0 where
    pub url : Url
    pub port : ℤ
    pub tls : Bytes
    pub parsed : platform.parse_url endpoint ≡ some url
    pub has_port : url_port url ≡ some port
    pub encrypted :
        ((same url.scheme (codes "https") ≡ true) × (tls ≡ codes "/tls"))
        ⊎ ((same url.scheme (codes "http") ≡ true)
            × (same platform.debug_env (codes "true") ≡ true)
            × (tls ≡ []))
    pub no_path : (url.escaped_path ≡ []) ⊎ (url.escaped_path ≡ codes "/")
    pub address :
        platform.new_multiaddr (
          endpoint_text
            (host_component (platform.is_ip url.hostname) url.hostname)
            url.hostname
            port
            tls)
        ≡ some r.endpoint_ma
    pub asks : r.endpoint ≡ endpoint
    pub identifies : r.peer_id ≡ p
    pub waits : r.http_client ≡ client_or_default client

  encrypted_of :
      (u : Url) (tls : Bytes)
      → (not (same u.scheme (codes "http")) && not (same u.scheme (codes "https"))) ≡ false
      → tls_component u.scheme platform.debug_env ≡ some tls
      → ((same u.scheme (codes "https") ≡ true) × (tls ≡ codes "/tls"))
        ⊎ ((same u.scheme (codes "http") ≡ true)
            × (same platform.debug_env (codes "true") ≡ true)
            × (tls ≡ []))
  unfolding tls_component
  encrypted_of u tls h e = elim (Bool-cases (same u.scheme (codes "https"))) [
    | inl s ↦ inl (s, ground arith)
    | inr s ↦ inr (ground arith, ground arith, ground arith)
  ]

  no_path_of :
      (path : Bytes)
      → (not (is_empty path) && not (same path (codes "/"))) ≡ false
      → (path ≡ []) ⊎ (path ≡ codes "/")
  no_path_of [] h = inl refl
  no_path_of (c ∷ s) h = inr ((same_iff (c ∷ s) (codes "/")).0 (ground arith))

  with_port-IsGateway :
      (endpoint p : Bytes) (client : Option HttpClient) (u : Url) (port : ℤ) (r : HttpBlockRouter A)
      → platform.parse_url endpoint ≡ some u
      → (not (same u.scheme (codes "http")) && not (same u.scheme (codes "https"))) ≡ false
      → url_port u ≡ some port
      → with_port platform endpoint p (client_or_default client) u port ≡ success r
      → IsGateway endpoint p client r
  unfolding with_port
  with_port-IsGateway endpoint p client u port r hu hs hp h =
      elim (Option-cases (tls_component u.scheme platform.debug_env)) [
        | inl n ↦ absurd (ground arith)
        | inr (tls, t) ↦
            elim (Bool-cases
              (not (is_empty u.escaped_path) && not (same u.escaped_path (codes "/")))) [
                | inl x ↦ absurd (ground arith)
                | inr x ↦
                    elim (Option-cases (
                      platform.new_multiaddr (
                        endpoint_text (host_component (platform.is_ip u.hostname) u.hostname)
                          u.hostname port tls))) [
                            | inl n ↦ absurd (ground arith)
                            | inr (ma, a) ↦ record {
                              url = u;
                              port = port;
                              tls = tls;
                              parsed = hu;
                              has_port = hp;
                              encrypted = encrypted_of u tls hs t;
                              no_path = no_path_of u.escaped_path x;
                              address = ground arith;
                              asks = ground arith;
                              identifies = ground arith;
                              waits = ground arith;
                            }
                          ]
              ]
      ]

  pub new_http_block_router-IsGateway :
      (endpoint p : Bytes) (client : Option HttpClient) (r : HttpBlockRouter A)
      → new_http_block_router platform endpoint p client ≡ success r
      → IsGateway endpoint p client r
  unfolding new_http_block_router
  new_http_block_router-IsGateway endpoint p client r h =
      elim (Option-cases (platform.parse_url endpoint)) [
        | inl n ↦ absurd (ground arith)
        | inr (u, q) ↦
            elim (Bool-cases
              (not (same u.scheme (codes "http")) && not (same u.scheme (codes "https")))) [
                | inl x ↦ absurd (ground arith)
                | inr x ↦ elim (Option-cases (url_port u)) [
                  | inl n ↦ absurd (ground arith)
                  | inr (port, w) ↦
                      with_port-IsGateway endpoint p client u port r q x w (ground arith)
                ]
              ]
      ]

  encrypted_scheme :
      (u : Url) (tls : Bytes)
      → ((same u.scheme (codes "https") ≡ true) × (tls ≡ codes "/tls"))
        ⊎ ((same u.scheme (codes "http") ≡ true)
            × (same platform.debug_env (codes "true") ≡ true)
            × (tls ≡ []))
      → ((not (same u.scheme (codes "http")) && not (same u.scheme (codes "https"))) ≡ false)
        × (tls_component u.scheme platform.debug_env ≡ some tls)
  unfolding tls_component
  encrypted_scheme u tls (inl (s, t)) = (ground arith, ground arith)
  encrypted_scheme u tls (inr (s, d, t)) =
      let e = (same_iff u.scheme (codes "http")).0 s in
      (ground arith, rw (e, same, d) (ap some (sym t)))

  path_test :
      (path : Bytes)
      → (path ≡ []) ⊎ (path ≡ codes "/")
      → (not (is_empty path) && not (same path (codes "/"))) ≡ false
  unfolding same
  path_test path (inl e) = rw e
  path_test path (inr e) = rw e

  IsGateway-new_http_block_router :
      (endpoint p : Bytes) (client : Option HttpClient) (r : HttpBlockRouter A)
      → IsGateway endpoint p client r
      → new_http_block_router platform endpoint p client ≡ success r
  unfolding new_http_block_router with_port
  IsGateway-new_http_block_router endpoint p client r g =
      let (s, t) = encrypted_scheme g.url g.tls g.encrypted in
      let path = path_test g.url.escaped_path g.no_path in
      ground (arith, g.parsed, s, g.has_port, t, path, g.address, g.asks, g.identifies, g.waits)

  -- newHTTPBlockRouter makes a router just when the endpoint is a URL without a path, has a port
  -- that is a number, is https or, while DEBUG is "true", http, and its host and port are an address; the
  -- router asks this endpoint, answers with this address and peer ID, and its client has a timeout.
  new_http_block_router_lem :
      (endpoint p : Bytes) (client : Option HttpClient) (r : HttpBlockRouter A)
      → ((new_http_block_router platform endpoint p client ≡ success r)
          ↔ IsGateway endpoint p client r)
        × (0 < (client_or_default client).timeout)
  unfolding client_or_default
  new_http_block_router_lem endpoint p none r = (
    (
      new_http_block_router-IsGateway endpoint p none r,
      IsGateway-new_http_block_router endpoint p none r,
    ),
    ground arith,
  )
  new_http_block_router_lem endpoint p (some c) r = (
    (
      new_http_block_router-IsGateway endpoint p (some c) r,
      IsGateway-new_http_block_router endpoint p (some c) r,
    ),
    ground arith,
  )
