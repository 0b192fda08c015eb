-- ===== src/Samples/Services.antt =====
-- Small stand-ins for boxo's autoconf, go-libp2p's resource manager and the calls of start.
use someguy.Prelude.{ℕ, refl, false, none, some, [], ◌∷◌, length, if◌then◌else◌}
use someguy.Prelude.Bytes.{Bytes, codes, has_prefix}
use someguy.Prelude.Int.{pos, negsuc}
use someguy.Endpoints.{Capability, providers_capability, peers_capability, ipns_capability}
use someguy.Routers.Compose.{ok}
use someguy.Autoconf.{AutoconfLib}
use someguy.Autoconf.Client.{AutoconfClient}
use someguy.BlockRouter.{Platform}
use someguy.Rcmgr.{Rcmgr, PartialLimitConfig, ResourceLimits}
use someguy.Rcmgr.Bounds.{RcmgrLaws}
use someguy.Server.Start.{Services}

-- Routing paths of one letter.
abbrev pub path_letter : Capability → ℕ
path_letter providers_capability = b'P'
path_letter peers_capability = b'Q'
path_letter ipns_capability = b'N'

abbrev pub autoconf_lib : AutoconfLib ℕ Bytes
autoconf_lib = record {
  auto_placeholder = codes "auto";
  routing_path = λ k. path_letter k ∷ [];
  system_amino_dht = codes "dht";
  expand_delegated_endpoints = λ urls f systems path. urls;
  get_bootstrap_peers = λ f systems. codes "b" ∷ [];
  fallback_bootstrap_peers = codes "c" ∷ [];
  peer_addr_info = λ s. some s;
}

abbrev pub autoconf_client : AutoconfClient ℕ Bytes
autoconf_client = record {
  default_refresh_interval = 1;
  mainnet_auto_conf_url = codes "m";
  new_client = λ o. ok o.url;
  start = λ n. ok 0;
}

-- Endpoints that begin with http: are not encrypted; an address is its text.
abbrev pub platform : Platform Bytes
platform = record {
  parse_url = λ s. some (record {
    scheme = if has_prefix s (codes "http:") then codes "http" else codes "https";
    hostname = codes "g.io";
    port = [];
    escaped_path = [];
  });
  is_ip = λ h. false;
  debug_env = [];
  new_multiaddr = λ s. some s;
}

abbrev unset_limits : ResourceLimits
unset_limits = record {
  memory = pos 0;
  fd = pos 0;
  conns = pos 0;
  conns_inbound = pos 0;
  conns_outbound = pos 0;
  streams = pos 0;
  streams_inbound = pos 0;
  streams_outbound = pos 0;
}

abbrev unset_config : PartialLimitConfig
unset_config = record {
  system = unset_limits;
  transient = unset_limits;
  allowlisted_system = unset_limits;
  allowlisted_transient = unset_limits;
  service_default = unset_limits;
  service_peer_default = unset_limits;
  protocol_default = unset_limits;
  protocol_peer_default = unset_limits;
  conn = unset_limits;
  stream = unset_limits;
  peer_default = unset_limits;
}

-- A manager that keeps the partial configuration as it is.
abbrev pub rcmgr : Rcmgr PartialLimitConfig
rcmgr = record {
  unlimited = negsuc 0;
  default_limit = pos 0;
  infinite_resource_limits = unset_limits;
  scaled = λ memory fd. unset_config;
  empty_config = unset_config;
  build = λ p c. p;
  to_partial_limit_config = λ c. c;
}

pub rcmgr_laws : RcmgrLaws rcmgr
rcmgr_laws = record {
  unlimited-eq = refl;
  default_limit-eq = refl;
  build_conns = λ p c h k. refl;
  build_streams = λ p c h. h;
}

abbrev pub services : Services Bytes ℕ Bytes Bytes Bytes ℕ PartialLimitConfig
services = record {
  version = codes "v";
  host = record {
    rcmgr = rcmgr;
    share = 0;
    num_fds = pos 1000;
    new_conn_manager = λ low hi grace. none;
    new_resource_manager = λ limits. none;
    new_libp2p = λ options. none;
  };
  host_peerstore = λ p. [];
  autoconf_client = autoconf_client;
  autoconf_lib = autoconf_lib;
  new_dht = λ peers kind. none;
  new_cached_addr_book = λ opts. some (length opts);
  platform = platform;
  decode_peer = λ p. some p;
  new_http_router = λ url. ok url;
  register_view = none;
  new_dns_addr_resolver = none;
  split_host_port = λ s. some (s, s);
  setup_tracing = none;
  new_compression_adapter = none;
}
