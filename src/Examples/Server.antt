-- ===== src/Examples/Server.antt =====
-- A server that starts, a gateway, the headers of a request, limits, and the output of a command.
use someguy.Samples.Servers.{gateway, server_config, handler, server_starts}
use mathlib.Core.Option
use someguy.Prelude.Decimal.{atoi, format_int}
use someguy.Cli.{start_config}
use someguy.Routers.Compose.{Fallible, ok}
use someguy.Prelude.{
  ℕ, ◌*◌, ◌/◌, ◌^◌, ◌<◌, max, ◌≡◌, ◌≢◌, ◌⊎◌, refl, inl, inr, false, Option, none, some, List, [],
  ◌∷◌, arith, ◌≤◌,
}
use someguy.Prelude.Bytes.{Bytes, codes, same, has_prefix}
use someguy.Prelude.Int.{pos, negsuc}
use someguy.Prelude.Try.{success}
use someguy.Records.{GoError, deadline_exceeded, Result}
use someguy.DnsAddr.Mode.{parse_dns_addr_resolution}
use someguy.BlockRouter.{HttpClient, new_http_block_router, find_providers}
use someguy.BlockRouter.Secure.{IsAnswer, find_providers-IsAnswer}
use someguy.Rcmgr.{memory_or_share, make_resource_mgrs}
use someguy.Rcmgr.Bounds.{make_resource_mgrs-max}
use someguy.Server.{ServerConfig}
use someguy.Server.Serves.{Serves, start-Serves}
use someguy.Server.Headers.{
  Header, get, IsAuthorized, with_tracing_and_debug, with_tracing_and_debug_lem,
}
use someguy.Client.{print_results}
use someguy.Client.Prints.{IsPrefix, print_results_lem}
use someguy.Samples.Services.{platform, services, rcmgr, rcmgr_laws}

gateway_made :
    new_http_block_router platform (codes "https://g.io") (codes "p") none ≡ success gateway
unfolding new_http_block_router has_prefix
gateway_made = refl

abbrev no_error : Bytes → Option GoError
no_error url = none

abbrev always_ok : HttpClient → Bytes → Option ℕ
always_ok client url = some 200

not_debug : same [] (codes "true") ≡ false
unfolding same
not_debug = refl

find_providers-IsAnswer_example :
    IsAnswer platform none (some 200) (find_providers no_error always_ok gateway (codes "c") 5)
find_providers-IsAnswer_example =
    find_providers-IsAnswer platform no_error always_ok (codes "https://g.io") (codes "p") none
      gateway (codes "c") 5 not_debug gateway_made

enough_memory : 1048576 ≤ memory_or_share 0 4000000000
unfolding memory_or_share
enough_memory = omega arith

memory_fits : memory_or_share 0 4000000000 < 2 ^ 64
unfolding memory_or_share
memory_fits = omega arith

make_resource_mgrs-max_example :
    ((make_resource_mgrs rcmgr 0 (pos 1000) 4000000000 (pos 0) (pos 3000)).system.conns_inbound
      ≡ pos (max 800 (max (2 * 3000) (memory_or_share 0 4000000000 / 1048576))))
    × ((make_resource_mgrs rcmgr 0 (pos 1000) 4000000000 (pos 0) (pos 3000)).system.streams_inbound
        ≡ negsuc 0)
make_resource_mgrs-max_example =
    make_resource_mgrs-max rcmgr rcmgr_laws 0 (pos 1000) 4000000000 (pos 0) 3000 enough_memory
      memory_fits (omega arith)

start-Serves_example : Serves services server_config handler
start-Serves_example = start-Serves services server_config handler server_starts

abbrev request : Header
request = (codes "Traceparent", codes "t" ∷ []) ∷ (codes "Accept", codes "a" ∷ []) ∷ []

parent_not_accept : same (codes "Traceparent") (codes "Accept") ≡ false
unfolding same
parent_not_accept = refl

state_not_accept : same (codes "Tracestate") (codes "Accept") ≡ false
unfolding same
state_not_accept = refl

with_tracing_and_debug_lem_example :
    (IsAuthorized (codes "s") request × (with_tracing_and_debug (codes "s") request ≡ request))
    ⊎ ((¬ IsAuthorized (codes "s") request)
        × (get (codes "Traceparent") (with_tracing_and_debug (codes "s") request) ≡ [])
        × (get (codes "Tracestate") (with_tracing_and_debug (codes "s") request) ≡ [])
        × (get (codes "Accept") (with_tracing_and_debug (codes "s") request)
            ≡ get (codes "Accept") request))
with_tracing_and_debug_lem_example =
    with_tracing_and_debug_lem (codes "s") request (codes "Accept") parent_not_accept
      state_not_accept

abbrev results : List (Result ℕ)
results =
    record { val = some 1; err = none }
    ∷ record { val = none; err = some deadline_exceeded }
    ∷ record { val = some 2; err = none }
    ∷ []

abbrev prints : ℕ → Option GoError
prints n = none

some-≢none : (n : ℕ) → some n ≢ none
some-≢none n = ground arith

error-≢none : some deadline_exceeded ≢ none
error-≢none = ground arith

print_results_lem_example : IsPrefix prints 0 results (print_results prints 0 results)
print_results_lem_example =
    print_results_lem prints 0 results
      (inl (some-≢none 1), (inr error-≢none, (inl (some-≢none 2), tt)))

-- The peer ID of an endpoint is the endpoint.
abbrev synthetic_id : Bytes → Fallible Bytes
synthetic_id endpoint = ok endpoint

abbrev start_flags : ServerConfig
start_flags = record server_config { block_provider_peer_ids = [] }

abbrev started_config : ServerConfig
started_config = record server_config { block_provider_peer_ids = codes "https://g.io" ∷ [] }

flags_accepted : start_config synthetic_id (codes "append") start_flags ≡ success started_config
unfolding start_config parse_dns_addr_resolution same
flags_accepted = refl

-- Ports in decimal digits.
atoi_test : atoi (codes "8190") ≡ some (pos 8190)
unfolding atoi Option.bind
atoi_test = refl

atoi_rejects_test : atoi (codes "81a") ≡ none
unfolding atoi Option.bind
atoi_rejects_test = refl

format_int_test : format_int (pos 8190) ≡ codes "8190"
unfolding format_int
format_int_test = refl
