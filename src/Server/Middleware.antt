-- ===== src/Server/Middleware.antt =====
-- The handlers that `start` of server.go puts around the handler of the routers, from the inside out:
-- withAddrFilter, CORS, compression, withRequestLogger and withTracingAndDebug. The CORS and
-- compression handlers and the handler of otelhttp are parameters.
use someguy.Prelude.{◌≡◌, Option, none, some, List, ◌∷◌, ◌∙◌, ap}
use someguy.Prelude.Bytes.{Bytes, codes}
use someguy.DnsAddr.Mode.{AddrFilter, with_addr_filter}
use someguy.Server.Headers.{Header, with_tracing_and_debug}

-- http.HttpRequest as the handlers see it; `filter` is the value of addrFilterCtxKey in its context.
pub record HttpRequest : Type 0 where
  pub method : Bytes
  pub path : Bytes
  pub filter_addrs : Bytes
  pub header : Header
  pub filter : Option AddrFilter

-- A handler: what a request leaves behind, R, and the log lines.
abbrev pub HttpHandler : Type 0 → Type 0
HttpHandler R = HttpRequest → R × List Bytes

abbrev pub recorded : Option AddrFilter → HttpRequest → HttpRequest
recorded none r = r
recorded (some f) r = record r { filter = some f }

unfoldable pub addr_filter_handler : {R : Type 0} → HttpHandler R → HttpHandler R
unfolding with_addr_filter
addr_filter_handler next r = next (recorded (with_addr_filter r.path r.filter_addrs) r)

-- withRequestLogger; `line` stands for the fields of the line that it logs at level debug.
unfoldable pub with_request_logger :
    {R : Type 0} → (HttpRequest → R → Bytes) → HttpHandler R → HttpHandler R
with_request_logger line next r = let (out, log) = next r in (out, line r out ∷ log)

unfoldable pub tracing_handler :
    {R : Type 0} → (otel : HttpHandler R → HttpHandler R) → Bytes → HttpHandler R → HttpHandler R
unfolding with_tracing_and_debug
tracing_handler otel auth_token next r =
    otel next (record r { header = with_tracing_and_debug auth_token r.header })

pub record Layers (R : Type 0) : Type 0 where
  pub cors : HttpHandler R → HttpHandler R
  pub compress : HttpHandler R → HttpHandler R
  pub otel : HttpHandler R → HttpHandler R
  pub line : HttpRequest → R → Bytes

unfoldable pub root_handler : {R : Type 0} → Layers R → Bytes → HttpHandler R → HttpHandler R
unfolding addr_filter_handler with_request_logger tracing_handler
root_handler layers auth_token routing =
    tracing_handler layers.otel auth_token (
      with_request_logger layers.line (layers.compress (layers.cors (addr_filter_handler routing))))

-- What the libraries document for a GET request: the handler behind gets the request as it is, and
-- CORS and compression change nothing but the response.
pub record LayerLaws {R : Type 0} (layers : Layers R) : Type 0 where
  pub shared : R → R
  pub cors_passes :
      (next : HttpHandler R) (r : HttpRequest)
      → r.method ≡ codes "GET"
      → layers.cors next r ≡ (shared (next r).0, (next r).1)
  pub compressed : HttpRequest → R → R
  pub compress_passes :
      (next : HttpHandler R) (r : HttpRequest)
      → layers.compress next r ≡ (compressed r (next r).0, (next r).1)
  pub otel_passes : (next : HttpHandler R) (r : HttpRequest) → layers.otel next r ≡ next r

-- The request that reaches the routers.
abbrev pub inner_request : Bytes → HttpRequest → HttpRequest
inner_request auth_token r =
    recorded (with_addr_filter r.path r.filter_addrs)
      (record r { header = with_tracing_and_debug auth_token r.header })

-- A GET request reaches the routers once, with the filter that its own URL names and without the tracing
-- headers of a client that is not authorized, and leaves one line in the log, whatever the
-- routers log before; the response is theirs, with the CORS headers and compressed.
root_handler_lem :
    {R : Type 0} (layers : Layers R) (laws : LayerLaws layers) (auth_token : Bytes)
    (routing : HttpHandler R) (r : HttpRequest)
    → r.method ≡ codes "GET"
    → let seen = inner_request auth_token r in
      let traced = record r { header = with_tracing_and_debug auth_token r.header } in
      let out = laws.compressed traced (laws.shared (routing seen).0) in
      root_handler layers auth_token routing r ≡ (out, layers.line traced out ∷ (routing seen).1)
unfolding root_handler
root_handler_lem layers laws auth_token routing r get =
    let traced = record r { header = with_tracing_and_debug auth_token r.header } in
    let filtered = layers.cors (addr_filter_handler routing) in
    let compressed = layers.compress filtered in
    let by_otel = laws.otel_passes (with_request_logger layers.line compressed) traced in
    let by_compress = laws.compress_passes filtered traced in
    let by_cors = laws.cors_passes (addr_filter_handler routing) traced get in
    by_otel
    ∙ ap (λ p. (p.0, layers.line traced p.0 ∷ p.1)) by_compress
    ∙ ap (λ p. (laws.compressed traced p.0, layers.line traced (laws.compressed traced p.0) ∷ p.1))
        by_cors
