-- ===== src/Samples/Servers.antt =====
-- Servers of server.go that start.
use someguy.Prelude.Sort.{sort_func}
use someguy.Prelude.{ℕ, ◌≡◌, refl, true, false, none, some, [], ◌∷◌}
use someguy.Prelude.Bytes.{Bytes, codes, has_prefix}
use someguy.Prelude.Int.{pos}
use someguy.Prelude.Try.{success}
use someguy.Routers.Compose.{given, sanitized_dht, only, parallel}
use someguy.DnsAddr.Mode.{append_mode}
use someguy.BlockRouter.{HttpBlockRouter, client_or_default}
use someguy.Server.{ServerConfig, default_routing_timeout}
use someguy.Server.Start.{http_router, block_router, Handler, start}
use someguy.Samples.Services.{services}

abbrev pub gateway : HttpBlockRouter Bytes
gateway = record {
  endpoint = codes "https://g.io";
  endpoint_ma = codes "/dns/g.io/tcp/443/tls/http";
  peer_id = codes "p";
  http_client = client_or_default none;
}

abbrev pub server_config : ServerConfig
server_config = record {
  listen_address = codes "l";
  host = record {
    libp2p_listen_address = [];
    conn_mgr_low = pos 100;
    conn_mgr_hi = pos 3000;
    conn_mgr_grace = pos 60;
    max_memory = 4000000000;
    max_fd = pos 0;
  };
  dht_type = codes "accelerated";
  cached_addr_book = true;
  cached_addr_book_active_probing = false;
  cached_addr_book_recent_ttl = pos 0;
  cached_addr_book_max_find_peers = pos 7;
  routing_timeout = pos 0;
  dns_addr_resolution = append_mode;
  records_limit = pos 100;
  streaming_records_limit = pos 1000;
  endpoints = record {
    content_endpoints = codes "xP" ∷ [];
    peer_endpoints = [];
    ipns_endpoints = [];
  };
  block_provider_endpoints = codes "https://g.io" ∷ [];
  block_provider_peer_ids = codes "p" ∷ [];
  tracing_auth = [];
  auto_conf = record { enabled = false; url = []; refresh_interval = 0; cache_dir = [] };
}

abbrev pub handler : Handler Bytes Bytes ℕ
handler = record {
  address_book = some 3;
  providers = (
    true,
    parallel
        (given (http_router (codes "x")) ∷ sanitized_dht true ∷ given (block_router gateway) ∷ []),
  );
  peers = (true, only (sanitized_dht true));
  ipns = (true, only (sanitized_dht true));
  dht = some (true, only (sanitized_dht true));
  records_limit = pos 100;
  streaming_records_limit = pos 1000;
  routing_timeout = default_routing_timeout;
}

pub server_starts : start services server_config ≡ success handler
unfolding start has_prefix sort_func
server_starts = refl

-- With an IPNS endpoint.
abbrev pub ipns_config : ServerConfig
ipns_config = record server_config {
  endpoints = record {
    content_endpoints = [];
    peer_endpoints = [];
    ipns_endpoints = codes "xN" ∷ [];
  };
}

abbrev pub ipns_handler : Handler Bytes Bytes ℕ
ipns_handler = record handler {
  providers = (true, parallel (sanitized_dht true ∷ given (block_router gateway) ∷ []));
  ipns = (true, parallel (given (http_router (codes "x")) ∷ sanitized_dht true ∷ []));
}

pub ipns_server_starts : start services ipns_config ≡ success ipns_handler
unfolding start has_prefix sort_func
ipns_server_starts = refl
