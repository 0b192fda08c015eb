-- ===== src/BlockRouter/Secure.antt =====
-- What a router of newHTTPBlockRouter can answer (http_block_router.go).
use someguy.Prelude.{
  ℕ, ◌≡◌, refl, ap, sym, ◌∙◌, inl, inr, false, Option, none, some, List, ◌++◌, append_assoc, length,
  if◌then◌else◌, All, arith, ◌==◌, Option-cases, Bool-cases,
}
use someguy.Prelude.Bytes.{Bytes, codes, same}
use someguy.Prelude.Decimal.{format_int}
use someguy.Prelude.Try.{success}
use someguy.Records.{GoError, Record, Result, result_addrs}
use someguy.Routers.Compose.{Fallible, ok, fails}
use someguy.BlockRouter.{
  Platform, HttpClient, HttpBlockRouter, new_http_block_router, client_or_default, host_component,
  endpoint_text, find_providers,
}
use someguy.BlockRouter.Accepts.{IsGateway, new_http_block_router-IsGateway}

module _ {A : Type 0} (platform : Platform A) where
  -- An address of a gateway that a browser can use: its text ends in /tls/http.
  abbrev pub IsEncrypted : A → Type 0
  IsEncrypted a = (text : Bytes) × (platform.new_multiaddr (text ++ codes "/tls/http") ≡ some a)

  split_text :
      (host h port : Bytes)
      → (codes "/" ++ host ++ codes "/" ++ h ++ codes "/tcp/" ++ port) ++ codes "/tls/http"
        ≡ codes "/"
          ++ host
          ++ codes "/"
          ++ h
          ++ codes "/tcp/"
          ++ port
          ++ codes "/tls"
          ++ codes "/http"
  split_text host h port = simp (append_assoc)

  IsGateway-IsEncrypted :
      (endpoint p : Bytes) (client : Option HttpClient) (r : HttpBlockRouter A)
      → same platform.debug_env (codes "true") ≡ false
      → IsGateway platform endpoint p client r
      → IsEncrypted r.endpoint_ma
  unfolding endpoint_text
  IsGateway-IsEncrypted endpoint p client r d g =
      let host = host_component (platform.is_ip g.url.hostname) g.url.hostname in
      let tls : g.tls ≡ codes "/tls" = ground (arith, g.encrypted) in
      (
        codes "/" ++ host ++ codes "/" ++ g.url.hostname ++ codes "/tcp/" ++ format_int g.port,
        ap platform.new_multiaddr (
              split_text host g.url.hostname (format_int g.port)
              ∙ ap (endpoint_text host g.url.hostname g.port) (sym tls))
            ∙ g.address,
      )

  abbrev gateway_results : Option ℕ → ℕ
  gateway_results none = 0
  gateway_results (some status) = if status == 200 then 1 else 0

  -- An error of the request, or results with encrypted addresses, as many as the status calls for.
  abbrev pub IsAnswer : Option GoError → Option ℕ → Fallible (List (Result (Record A))) → Type 0
  IsAnswer request status (fails e) = request ≡ some e
  IsAnswer request status (ok results) =
      (request ≡ none)
      × (length results ≡ gateway_results status)
      × All (λ v. All IsEncrypted (result_addrs v)) results

  find_providers-answers :
      (new_request : Bytes → Option GoError) (head : HttpClient → Bytes → Option ℕ)
      (r : HttpBlockRouter A) (c : Bytes) (limit : ℕ)
      → IsEncrypted r.endpoint_ma
      → let url = r.endpoint ++ codes "/ipfs/" ++ c ++ codes "?format=raw" in
        IsAnswer
          (new_request url)
          (head r.http_client url)
          (find_providers new_request head r c limit)
  unfolding find_providers
  find_providers-answers new_request head r c limit safe =
      let url = r.endpoint ++ codes "/ipfs/" ++ c ++ codes "?format=raw" in
      elim (Option-cases (new_request url)) [
        | inr (e, q) ↦ rw (q, find_providers) refl
        | inl n ↦ elim (Option-cases (head r.http_client url)) [
          | inl q ↦ rw (n, q, find_providers) (refl, refl, tt)
          | inr (status, q) ↦ elim (Bool-cases (status == 200)) [
            | inl t ↦ rw (n, q, t, find_providers) (refl, ground arith, ((safe, tt), tt))
            | inr t ↦ rw (n, q, t, find_providers) (refl, ground arith, tt)
          ]
        ]
      ]

  -- Unless DEBUG is "true", every result of a router that newHTTPBlockRouter made has only addresses
  -- with /tls/http; there is one result when the gateway answers the HEAD request with 200, and
  -- none otherwise. Only a request that cannot be made is an error.
  pub find_providers-IsAnswer :
      (new_request : Bytes → Option GoError) (head : HttpClient → Bytes → Option ℕ)
      (endpoint p : Bytes) (client : Option HttpClient) (r : HttpBlockRouter A) (c : Bytes)
      (limit : ℕ)
      → same platform.debug_env (codes "true") ≡ false
      → new_http_block_router platform endpoint p client ≡ success r
      → let url = endpoint ++ codes "/ipfs/" ++ c ++ codes "?format=raw" in
        IsAnswer
          (new_request url)
          (head (client_or_default client) url)
          (find_providers new_request head r c limit)
  find_providers-IsAnswer new_request head endpoint p client r c limit d h =
      let g = new_http_block_router-IsGateway platform endpoint p client r h in
      let safe = IsGateway-IsEncrypted endpoint p client r d g in
      rw (sym g.asks, sym g.waits) (find_providers-answers new_request head r c limit safe)
