-- ===== src/CachedAddrBook/Probing.antt =====
-- cached_addr_book.go: when a peer is probed, what a failed connection leaves behind, and the slots
-- of background FindPeer lookups.
use someguy.Prelude.{
  ℕ, zero, suc, ◌+◌, ◌*◌, ◌^◌, ◌%◌, Bool, true, false, ◌&&◌, Option, none, some, if◌then◌else◌, ltb,
}
use someguy.Prelude.Int.{ℤ, pos, ltb_ℤ, min_ℤ, wrap64}
use someguy.Prelude.Bytes.{Bytes}
use someguy.Lru.{Lru}
use someguy.AddrBook.{AddrBook}
use someguy.CachedAddrBook.Types.{
  Limits, PeerState, no_peer_state, CachedAddrBook, peer_probe_threshold, elapsed,
}

-- 1 << n on 64 bits.
unfoldable pub shift_one : ℕ → ℕ
shift_one n = if ltb n 64 then 2 ^ n else 0

-- PeerProbeThreshold * time.Duration(1 << (connectFailures - 1)), clamped, in int64.
unfoldable pub backoff_duration : Limits → ℕ → ℤ
unfolding shift_one
backoff_duration limits zero = pos peer_probe_threshold
backoff_duration limits (suc n) =
    min_ℤ (wrap64 (peer_probe_threshold * shift_one n)) (pos limits.provide_validity)

-- The rest of ShouldProbePeer once the peer's state has been looked up.
unfoldable pub probe_state : Limits → ℕ → Option PeerState → Bool
unfolding backoff_duration
probe_state limits now none = true
probe_state limits now (some st) =
    ltb_ℤ (backoff_duration limits st.connect_failures) (elapsed now st.last_failed_conn_time)

module _ {B C A E : Type 0} (limits : Limits) (book : AddrBook B A E)
    (cache : Lru C Bytes PeerState) where
  unfoldable pub should_probe_peer : ℕ → Bytes → CachedAddrBook B C A → Bool
  unfolding probe_state
  should_probe_peer now p cab = probe_state limits now (cache.peek cab.peer_cache p)

  abbrev gave_up : ℕ → PeerState → Bool
  gave_up now st =
      ltb 1 st.connect_failures
      && ltb_ℤ (pos limits.provide_validity) (elapsed now st.last_failed_conn_time)

  abbrev failed_again : ℕ → PeerState → PeerState
  failed_again now st = record st {
    last_failed_conn_time = now;
    connect_failures = (st.connect_failures + 1) % 2 ^ 64;
  }

  abbrev record_failed : ℕ → Bytes → Option PeerState → CachedAddrBook B C A → CachedAddrBook B C A
  record_failed now p none cab = record cab {
    peer_cache = cache.add cab.peer_cache p (failed_again now no_peer_state);
  }
  record_failed now p (some st) cab =
      if gave_up now st
      then record cab {
        peer_cache = cache.remove cab.peer_cache p;
        peer_state_size = cache.len (cache.remove cab.peer_cache p);
        addr_book = book.clear_addrs cab.addr_book p;
      }
      else record cab { peer_cache = cache.add cab.peer_cache p (failed_again now st) }

  unfoldable pub record_failed_connection : ℕ → Bytes → CachedAddrBook B C A → CachedAddrBook B C A
  record_failed_connection now p cab = record_failed now p (cache.peek cab.peer_cache p) cab

-- The send in a select with a default, and the receive. A receive from the empty channel blocks.
unfoldable pub try_acquire_find_peer_slot :
    {B C A : Type 0} → CachedAddrBook B C A → Bool × CachedAddrBook B C A
try_acquire_find_peer_slot cab =
    if ltb cab.slots_held cab.find_peer_slots
    then (true, record cab { slots_held = cab.slots_held + 1 })
    else (false, record cab { lookups_rejected = cab.lookups_rejected + 1 })

unfoldable pub release_find_peer_slot :
    {B C A : Type 0} → CachedAddrBook B C A → Option (CachedAddrBook B C A)
release_find_peer_slot cab = elim cab.slots_held [
  | zero ↦ none
  | suc n ↦ some (record cab { slots_held = n })
]
