-- ===== src/Examples/Endpoints.antt =====
-- One URL in two lists, another in one.
use someguy.Prelude.{◌≡◌, refl, true, false, [], ◌∷◌}
use someguy.Prelude.Bytes.{codes, same}
use someguy.Endpoints.{Config, collect_endpoints}

abbrev config : Config
config = record {
  content_endpoints = codes "a" ∷ [] ∷ codes "b" ∷ codes "a" ∷ [];
  peer_endpoints = [];
  ipns_endpoints = codes "a" ∷ [];
}

collect_endpoints_test :
    collect_endpoints config
    ≡ record { base_url = codes "a"; providers = true; peers = false; ipns = true }
      ∷ record { base_url = codes "b"; providers = true; peers = false; ipns = false }
      ∷ []
unfolding collect_endpoints same
collect_endpoints_test = refl
