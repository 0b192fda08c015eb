-- ===== src/Cli/Ask.antt =====
-- The subcommands of `ask` in main.go, up to the call of the client.
use someguy.Prelude.{Bool, Option, none, some, List, [], ◌∷◌}
use someguy.Prelude.Bytes.{Bytes, codes}
use someguy.Prelude.Try.{Try, success, refused, ◌>>=◌}
use someguy.Endpoints.{Config}
use someguy.Autoconf.{AutoconfLib, Checked, valid, invalid, expand_delegated_routing_endpoints}
use someguy.Autoconf.Client.{AutoConfConfig, AutoconfClient, start_auto_conf, auto_conf_or_nil}
use someguy.Cli.{CliError, invalid_command, no_endpoint, invalid_argument, invalid_endpoint}

-- peer.Decode, cid.Parse, peer.ToCid, ipns.NameFromString and multibase.Decode; none is an error.
-- P: peer IDs, D: CIDs, M: IPNS names.
pub record Parsers (P D M : Type 0) : Type 0 where
  pub decode_peer : Bytes → Option P
  pub parse_cid : Bytes → Option D
  pub to_cid : P → D
  pub parse_name : Bytes → Option M
  pub decode_multibase : Bytes → Option Bytes

-- The call of a function of client.go, with its endpoint.
pub data Request (P D M : Type 0) : Type 0 where
  find_providers : D → (endpoint : Bytes) → (pretty : Bool) → Request P D M
  find_peers : P → (endpoint : Bytes) → (pretty : Bool) → Request P D M
  get_closest_peers : D → (endpoint : Bytes) → (pretty : Bool) → Request P D M
  get_ipns : M → (endpoint : Bytes) → (pretty : Bool) → Request P D M
  put_ipns : M → (record_bytes endpoint : Bytes) → Request P D M

pub data Subcommand : Type 0 where
  findprovs findpeers getclosestpeers getipns putipns : Subcommand

pub record AskFlags : Type 0 where
  pub endpoint : Bytes
  pub pretty : Bool
  pub auto_conf : AutoConfConfig

abbrev parsed : {T : Type 0} → (Bytes → Option T) → Bytes → Try CliError T
parsed parse s = elim (parse s) [ none ↦ refused (invalid_argument s) | some t ↦ success t ]

abbrev only_argument : List Bytes → Try CliError Bytes
only_argument (a ∷ []) = success a
only_argument args = refused invalid_command

abbrev two_arguments : List Bytes → Try CliError (Bytes × Bytes)
two_arguments (a ∷ b ∷ []) = success (a, b)
two_arguments args = refused invalid_command

-- The content endpoints of a configuration that was expanded; the first one is used.
abbrev pub first_endpoint : Checked Config → Try CliError Bytes
first_endpoint (invalid e) = refused (invalid_endpoint e)
first_endpoint (valid cfg) = elim cfg.content_endpoints [
  | [] ↦ refused no_endpoint
  | url ∷ urls ↦ success url
]

module _ {P D M : Type 0} (parsers : Parsers P D M) where
  -- A peer ID, or else a CID.
  unfoldable pub parse_key : Bytes → Option D
  parse_key s = elim (parsers.decode_peer s) [
    | some p ↦ some (parsers.to_cid p)
    | none ↦ parsers.parse_cid s
  ]

  module _ {F N I : Type 0} (boxo : AutoconfClient F N) (lib : AutoconfLib F I)
      (version : Bytes) where
    -- What findprovs and findpeers make of --endpoint.
    unfoldable pub expanded_endpoint : AskFlags → Try CliError Bytes
    unfolding start_auto_conf expand_delegated_routing_endpoints
    expanded_endpoint flags = first_endpoint (
        expand_delegated_routing_endpoints lib flags.auto_conf.enabled (codes "none")
          (auto_conf_or_nil (start_auto_conf boxo version flags.auto_conf))
          (record {
            content_endpoints = flags.endpoint ∷ [];
            peer_endpoints = [];
            ipns_endpoints = [];
          }))

    unfoldable pub ask : Subcommand → List Bytes → AskFlags → Try CliError (Request P D M)
    unfolding parse_key expanded_endpoint
    ask findprovs args flags = do
      s ← only_argument args
      c ← parsed parsers.parse_cid s
      endpoint ← expanded_endpoint flags
      success (find_providers c endpoint flags.pretty)
    ask findpeers args flags = do
      s ← only_argument args
      p ← parsed parsers.decode_peer s
      endpoint ← expanded_endpoint flags
      success (find_peers p endpoint flags.pretty)
    ask getclosestpeers args flags = do
      s ← only_argument args
      c ← parsed parse_key s
      success (get_closest_peers c flags.endpoint flags.pretty)
    ask getipns args flags = do
      s ← only_argument args
      name ← parsed parsers.parse_name s
      success (get_ipns name flags.endpoint flags.pretty)
    ask putipns args flags = do
      (s, r) ← two_arguments args
      name ← parsed parsers.parse_name s
      bytes ← parsed parsers.decode_multibase r
      success (put_ipns name bytes flags.endpoint)
