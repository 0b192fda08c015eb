-- ===== src/CachedAddrBook/Backoff.antt =====
-- When a peer that failed is probed again.
use someguy.Prelude.{
  ℕ, zero, suc, ◌+◌, ◌*◌, ◌^◌, ◌%◌, ◌≤◌, ◌<◌, min, ◌≡◌, refl, inl, inr, Bool, true, false, none,
  some, arith, Bool-cases, ltb, if◌then◌else◌,
}
use someguy.Prelude.Int.{pos}
use someguy.Prelude.Bytes.{Bytes}
use someguy.Context.{hour}
use someguy.Lru.{Lru, LruLaws}
use someguy.AddrBook.{AddrBook}
use someguy.CachedAddrBook.Types.{Limits, PeerState, CachedAddrBook, peer_probe_threshold}
use someguy.CachedAddrBook.Probing.{
  backoff_duration, probe_state, should_probe_peer, record_failed_connection,
}

-- The products that the backoff computes for the first failures fit in int64.
abbrev products_fit : ℕ → Bool
products_fit zero = true
products_fit (suc k) =
    let earlier = products_fit k in
    if ltb (peer_probe_threshold * 2 ^ k) (2 ^ 63) then earlier else false

product_below :
    (k bound : ℕ) → k < bound → products_fit bound ≡ true → peer_probe_threshold * 2 ^ k < 2 ^ 63
product_below k zero lt h = absurd (omega arith)
product_below k (suc bound) lt h = ground (arith, product_below k bound)

fits_below : (k : ℕ) → k < 22 → peer_probe_threshold * 2 ^ k < 2 ^ 63
fits_below k h = product_below k 22 h refl

-- After 1 to 22 failures in a row the backoff is one hour, doubled for each failure after the
-- first, and never more than the validity of a provider record (which int64 holds).
backoff_duration_doubles :
    (limits : Limits) (failures : ℕ)
    → failures < 22
    → backoff_duration limits (suc failures)
      ≡ pos (min (hour * 2 ^ failures) limits.provide_validity)
unfolding backoff_duration
backoff_duration_doubles limits failures h = ground (arith, fits_below failures h)

-- The product of the backoff overflows at the 23rd failure, and a peer is probed at once.
pub probe_state_overflow :
    (limits : Limits) (now : ℕ) (st : PeerState)
    → st.connect_failures ≡ 23
    → probe_state limits now (some st) ≡ true
unfolding probe_state
probe_state_overflow limits now st h = rw h

module _ {B C A E : Type 0} (limits : Limits) (book : AddrBook B A E)
    (cache : Lru C Bytes PeerState) where
  -- A number of failed connections to a peer, one right after the other.
  pub fail_times : ℕ → ℕ → Bytes → CachedAddrBook B C A → CachedAddrBook B C A
  fail_times zero now p cab = cab
  fail_times (suc n) now p cab =
      record_failed_connection limits book cache now p (fail_times n now p cab)

  module _ (laws : LruLaws C Bytes PeerState cache) where
    first_failure :
        (now : ℕ) (p : Bytes) (cab : CachedAddrBook B C A)
        → cache.peek cab.peer_cache p ≡ none
        → cache.peek (record_failed_connection limits book cache now p cab).peer_cache p
          ≡ some (record { last_conn_time = 0; last_failed_conn_time = now; connect_failures = 1 })
    unfolding record_failed_connection
    first_failure now p cab h = rw (h, record_failed_connection) (laws.peek-add_self _ p _)

    failure_at_once :
        (n now : ℕ) (p : Bytes) (cab : CachedAddrBook B C A)
        → n < 100
        → cache.peek cab.peer_cache p
          ≡ some (record { last_conn_time = 0; last_failed_conn_time = now; connect_failures = n })
        → cache.peek (record_failed_connection limits book cache now p cab).peer_cache p
          ≡ some
              (record { last_conn_time = 0; last_failed_conn_time = now; connect_failures = n + 1 })
    unfolding record_failed_connection
    failure_at_once n now p cab b h = ground (
      arith,
      h,
      laws.peek-add_self cab.peer_cache p (record {
        last_conn_time = 0;
        last_failed_conn_time = now;
        connect_failures = (n + 1) % 2 ^ 64;
      }),
    )

    fail_times-peek :
        (n now : ℕ) (p : Bytes) (cab : CachedAddrBook B C A)
        → cache.peek cab.peer_cache p ≡ none
        → n < 100
        → cache.peek (fail_times (suc n) now p cab).peer_cache p
          ≡ some
              (record { last_conn_time = 0; last_failed_conn_time = now; connect_failures = suc n })
    unfolding fail_times
    fail_times-peek zero now p cab h b = first_failure now p cab h
    fail_times-peek (suc n) now p cab h b = ground (
      arith,
      failure_at_once (suc n) now p (fail_times (suc n) now p cab) (omega arith)
          (fail_times-peek n now p cab h (omega arith)),
    )

    probe_state-fresh_failure :
        (n now : ℕ)
        → n ≤ 22
        → probe_state limits now (
            some (record {
              last_conn_time = 0;
              last_failed_conn_time = now;
              connect_failures = suc n;
            }))
          ≡ (if ltb n 22 then false else true)
    probe_state-fresh_failure n now b = elim (Bool-cases (ltb n 22)) [
      | inl e ↦ rw e (
          unfold probe_state in
          rw (backoff_duration_doubles limits n (ground arith)) (ground arith))
      | inr e ↦ rw e (probe_state_overflow limits now _ (ground arith))
    ]

    -- A peer that fails for the first time and then, at once, again and again, is not to be probed
    -- after 1 to 22 failures. After the 23rd it is: its backoff has overflowed.
    pub should_probe_after_failures :
        (n now : ℕ) (p : Bytes) (cab : CachedAddrBook B C A)
        → cache.peek cab.peer_cache p ≡ none
        → n ≤ 22
        → should_probe_peer limits book cache now p (fail_times (suc n) now p cab)
          ≡ (if ltb n 22 then false else true)
    unfolding should_probe_peer
    should_probe_after_failures n now p cab h b =
        rw (fail_times-peek n now p cab h (omega arith), should_probe_peer)
          (probe_state-fresh_failure n now b)
