-- ===== src/Examples/Requests.antt =====
-- Requests on started servers.
use someguy.Prelude.{ℕ, ◌≡◌, ◌↔◌, ◌⊎◌, refl, true, none, some, List, [], ◌∷◌, All, arith}
use someguy.Prelude.Bytes.{Bytes, codes, same}
use someguy.Records.{canceled}
use someguy.Routers.Compose.{ok, fails, Merged}
use someguy.Routers.Found.{Offers}
use someguy.Routers.Ipns.{IpnsRecords, Round, arrives, validity_eol, is_expired_ipns_record}
use someguy.Server.Combined.{upstreams}
use someguy.Server.Requests.{Backends, find_providers, get_ipns, put_ipns, ask_put_ipns}
use someguy.Server.Requests.Publish.{put_ipns_accepted}
use someguy.Server.Requests.Resolve.{IsUnexpired, get_ipns-IsUnexpired, get_ipns_unchecked}
use someguy.Server.Requests.Lookup.{find_providers-Offers}
use someguy.Samples.Services.{services}
use someguy.Samples.Servers.{
  server_config, handler, server_starts, ipns_config, ipns_handler, ipns_server_starts,
}

-- Records that end at a time, which they are.
abbrev ipns : IpnsRecords ℕ
ipns = record { validity_type = λ r. some validity_eol; validity = λ r. some r }

-- The endpoint fails or has a live record, and the DHT has one that ended at 5.
abbrev backends : Backends Bytes Bytes ℕ ℕ ℕ
backends = record {
  http_find_providers = λ k. fails canceled;
  http_find_peers = λ k. ok 1;
  http_get_ipns = λ k. record { val = some 20; err = none };
  http_put_ipns = λ k. some canceled;
  block_find_providers = λ b. ok 2;
  dht_find_providers = λ cached. 3;
  dht_find_peers = λ cached. ok 4;
  dht_get_ipns = record { val = some 5; err = none };
  dht_put_ipns = none;
  dht_get_closest_peers = λ cached. ok 6;
  no_peers = 7;
}

put_ipns_accepted_example : (put_ipns backends ipns_handler ≡ none) ↔ (
    All (λ x. ask_put_ipns backends x ≡ none) (upstreams ipns_handler.ipns.1)
    × ((same ipns_config.dht_type (codes "disabled") ≡ true) ⊎ (backends.dht_put_ipns ≡ none)))
put_ipns_accepted_example =
    put_ipns_accepted services ipns_config ipns_handler backends ipns_server_starts

abbrev rounds : List (Round ℕ)
rounds =
    arrives 10 (record { val = some 5; err = none }) none
    ∷ arrives 12 (record { val = some 20; err = none }) none
    ∷ []

get_ipns-IsUnexpired_example : IsUnexpired ipns 9 rounds (some 20)
unfolding get_ipns is_expired_ipns_record
get_ipns-IsUnexpired_example =
    get_ipns-IsUnexpired services ipns_config ipns_handler backends ipns 9 rounds (some 20)
      ipns_server_starts (ground arith) refl

get_ipns_unchecked_example : get_ipns backends ipns handler 10 [] ≡ ok (some 5)
unfolding same
get_ipns_unchecked_example =
    get_ipns_unchecked services server_config handler backends ipns 10 [] 5 server_starts refl refl
      refl

find_providers-Offers_example :
    (m : Merged ℕ) × (find_providers backends handler ≡ ok (true, m)) × Offers (ok m) 3
unfolding same
find_providers-Offers_example =
    find_providers-Offers services server_config handler backends server_starts refl
