-- ===== src/CachedAddrBook/Failures.antt =====
-- What a failed connection leaves of a peer (cached_addr_book.go: RecordFailedConnection).
use someguy.Prelude.{ℕ, ◌+◌, ◌-◌, ◌^◌, ◌%◌, ◌≤◌, ◌<◌, ◌≡◌, ◌⊎◌, none, some, arith}
use someguy.Prelude.Bytes.{Bytes}
use someguy.Lru.{Lru, LruLaws}
use someguy.AddrBook.{AddrBook, AddrBookLaws}
use someguy.CachedAddrBook.Types.{Limits, PeerState, CachedAddrBook}
use someguy.CachedAddrBook.Probing.{record_failed_connection}

module _ {B C A E : Type 0} (limits : Limits) (book : AddrBook B A E)
    (cache : Lru C Bytes PeerState) (laws : LruLaws C Bytes PeerState cache)
    (book_laws : AddrBookLaws B A E book) where
  -- A peer that failed at least twice and whose last failure is longer ago than the validity
  -- of a provider record, which is less than the largest duration, is forgotten by one more
  -- failure: its state is gone and no address of it is left.
  pub record_failed_connection_gives_up :
      (now : ℕ) (p : Bytes) (st : PeerState) (cab : CachedAddrBook B C A) (a : A)
      → cache.peek cab.peer_cache p ≡ some st
      → 1 < st.connect_failures
      → st.last_failed_conn_time + limits.provide_validity < now
      → limits.provide_validity < 2 ^ 63 - 1
      → let cab' = record_failed_connection limits book cache now p cab in
        (cache.peek cab'.peer_cache p ≡ none)
        × (book_laws.expiry cab'.addr_book p a ≡ 0)
        × (cab'.peer_state_size ≡ cache.len cab'.peer_cache)
  unfolding record_failed_connection
  record_failed_connection_gives_up now p st cab a h twice old fits =
      ground
        (arith, laws.peek-remove_self cab.peer_cache p, book_laws.expiry-clear cab.addr_book p a)

  -- A failure of any other peer with a state counts one failure more, is dated, keeps the time of the last
  -- connection, and leaves the address book alone.
  record_failed_connection_counts :
      (now : ℕ) (p : Bytes) (st : PeerState) (cab : CachedAddrBook B C A)
      → cache.peek cab.peer_cache p ≡ some st
      → (st.connect_failures ≤ 1) ⊎ (now ≤ st.last_failed_conn_time + limits.provide_validity)
      → let cab' = record_failed_connection limits book cache now p cab in
        (cache.peek cab'.peer_cache p
          ≡ some (record {
            last_conn_time = st.last_conn_time;
            last_failed_conn_time = now;
            connect_failures = (st.connect_failures + 1) % 2 ^ 64;
          }))
        × (cab'.addr_book ≡ cab.addr_book)
  unfolding record_failed_connection
  record_failed_connection_counts now p st cab h few = ground (
    arith,
    laws.peek-add_self cab.peer_cache p (record {
      last_conn_time = st.last_conn_time;
      last_failed_conn_time = now;
      connect_failures = (st.connect_failures + 1) % 2 ^ 64;
    }),
  )
