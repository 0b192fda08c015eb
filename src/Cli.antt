-- ===== src/Cli.antt =====
-- main.go: what the actions of the commands `start` and `ask` do with the flags and arguments. The
-- values of the flags are those that urfave/cli gives.
pub mod Ask
pub mod Endpoint
pub mod Accepted
pub mod Flags
use someguy.Prelude.{
  ℕ, zero, Bool, true, false, not, ◌&&◌, ◌||◌, Option, none, some, List, [], ◌∷◌, ◌++◌, is_empty,
  if◌then◌else◌,
}
use someguy.Prelude.Bytes.{Bytes}
use someguy.Prelude.Int.{ℤ, is_negative}
use someguy.Prelude.Try.{Try, success, refused, ◌>>=◌}
use someguy.Records.{GoError}
use someguy.DnsAddr.Mode.{DnsAddrResolution, parse_dns_addr_resolution}
use someguy.Autoconf.{EndpointError}
use someguy.Routers.Compose.{Fallible, ok, fails}
use someguy.Server.{ServerConfig}

-- The errors that an action returns before it calls start or the client.
pub data CliError : Type 0 where
  negative_limit : ℤ → CliError
  invalid_mode : Bytes → CliError
  no_synthetic_id : GoError → CliError
  invalid_command no_endpoint : CliError
  invalid_argument : Bytes → CliError
  invalid_endpoint : EndpointError → CliError

abbrev pub limit : ℤ → Try CliError ℤ
limit n = if is_negative n then refused (negative_limit n) else success n

abbrev pub mode_of : Bytes → Try CliError DnsAddrResolution
mode_of s = elim (parse_dns_addr_resolution s) [
  | none ↦ refused (invalid_mode s)
  | some mode ↦ success mode
]

-- `synthetic_peer_id` is the text of the peer ID of the SHA-256 hash of an endpoint.
unfoldable pub generate_peer_ids : (Bytes → Fallible Bytes) → List Bytes → Try CliError (List Bytes)
generate_peer_ids synthetic_peer_id [] = success []
generate_peer_ids synthetic_peer_id (endpoint ∷ endpoints) = elim (synthetic_peer_id endpoint) [
  | fails e ↦ refused (no_synthetic_id e)
  | ok id ↦ generate_peer_ids synthetic_peer_id endpoints >>= λ ids. success (id ∷ ids)
]

unfoldable pub block_provider_ids :
    (Bytes → Fallible Bytes) → List Bytes → List Bytes → Try CliError (List Bytes)
unfolding generate_peer_ids
block_provider_ids synthetic_peer_id endpoints ids =
    if not (is_empty endpoints) && is_empty ids
    then generate_peer_ids synthetic_peer_id endpoints
    else success ids

-- The config that the action of `start` calls start with. `flags` has the values of the flags, with
-- the two limits as they are given; the mode is given apart.
unfoldable pub start_config :
    (Bytes → Fallible Bytes)
    → (dnsaddr_resolution : Bytes) → ServerConfig
    → Try CliError ServerConfig
unfolding block_provider_ids
start_config synthetic_peer_id dnsaddr_resolution flags = do
  records_limit ← limit flags.records_limit
  streaming_records_limit ← limit flags.streaming_records_limit
  mode ← mode_of dnsaddr_resolution
  ids ←
      block_provider_ids synthetic_peer_id flags.block_provider_endpoints
        flags.block_provider_peer_ids
  success (record flags { dns_addr_resolution = mode; block_provider_peer_ids = ids })
