-- ===== src/CachedAddrBook/Types.antt =====
-- cached_addr_book.go: cachedAddrBook and peerState. Times are nanoseconds since Go's zero time, so
-- time.Time{} is 0.
use someguy.Prelude.{ℕ, ◌-◌, ◌^◌, min, Bool, Option, List}
use someguy.Prelude.Int.{ℤ, pos}
use someguy.Prelude.Bytes.{Bytes}
use someguy.Context.{hour}

abbrev pub peer_probe_threshold : ℕ
peer_probe_threshold = hour

abbrev pub max_concurrent_find_peers : ℕ
max_concurrent_find_peers = 512

-- The constants that come from other modules: peerstore.ConnectedAddrTTL,
-- amino.DefaultProvideValidity (MaxBackoffDuration and the default TTL) and the relay's
-- reservation TTL.
pub record Limits : Type 0 where
  pub connected_addr_ttl : ℕ
  pub provide_validity : ℕ
  pub reservation_ttl : ℕ

pub record PeerState : Type 0 where
  pub last_conn_time : ℕ
  pub last_failed_conn_time : ℕ
  pub connect_failures : ℕ

abbrev pub no_peer_state : PeerState
no_peer_state = record { last_conn_time = 0; last_failed_conn_time = 0; connect_failures = 0 }

-- B: address books, C: peer caches, A: addresses. find_peer_slots is the channel's capacity and
-- slots_held its length; lookups_in_flight and lookups_rejected are the metrics beside it.
pub record CachedAddrBook (B C A : Type 0) : Type 0 where
  pub addr_book : B
  pub host_peerstore : Option (Bytes → List A)
  pub peer_cache : C
  pub probing_enabled : Bool
  pub is_probing : Bool
  pub allow_private_ips : Bool
  pub recently_connected_ttl : ℕ
  pub relay_addr_ttl : ℕ
  pub find_peer_slots : ℕ
  pub slots_held : ℕ
  pub lookups_rejected : ℕ
  pub peer_state_size : ℕ

-- network.Connectedness
pub data Connectedness : Type 0 where
  not_connected connected can_connect cannot_connect limited : Connectedness

-- now.Sub(t), which stops at the largest duration. Clocks do not go backwards.
abbrev pub elapsed : ℕ → ℕ → ℤ
elapsed now t = pos (min (now - t) (2 ^ 63 - 1))
