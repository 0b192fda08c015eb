-- ===== src/Examples/Book.antt =====
-- A peer that is identified with a direct address, over the book of Samples.
use mathlib.Core.List.{Mem, mem-cons, not-mem-nil}
use mathlib.Core.Logic.Or
use mathlib.Core.HLevel.{⊥_prop}
use someguy.Prelude.{
  ℕ, ◌+◌, ◌*◌, ◌≤◌, max, ◌≡◌, refl, true, false, none, List, [], ◌∷◌, arith, if◌then◌else◌, ltb,
}
use someguy.Context.{hour}
use someguy.Addrs.{is_relay_addr}
use someguy.CachedAddrBook.Types.{PeerState}
use someguy.CachedAddrBook.Probing.{should_probe_peer}
use someguy.CachedAddrBook.Addrs.{replace_peer_addrs, cache_addrs}
use someguy.CachedAddrBook.Replace.{replace_peer_addrs_drops_stale, replace_peer_addrs_relay_ttl}
use someguy.CachedAddrBook.Caching.{cache_addrs_expiry}
use someguy.CachedAddrBook.Backoff.{fail_times, should_probe_after_failures}
use someguy.Samples.Caches.{list_cache, list_cache-laws}
use someguy.Samples.Books.{
  Cab, limits, cab, peer, SampleAddr, direct_addr, relay_addr, sample_multiaddr, sample_book,
  sample_book-laws,
}

abbrev failed_thrice : PeerState
failed_thrice = record { last_conn_time = 0; last_failed_conn_time = 5; connect_failures = 3 }

abbrev failing : Cab
failing = record cab { peer_cache = (peer, failed_thrice) ∷ [] }

not_relay_addr : ¬ Mem relay_addr (direct_addr ∷ [])
not_relay_addr h = Or.elim ⊥_prop (mem-cons.0 h) (λ e. absurd (ground arith)) not-mem-nil

abbrev identified_with : List SampleAddr → List SampleAddr → Cab
identified_with listen_addrs conn_addrs =
    replace_peer_addrs limits sample_book 100 peer none listen_addrs conn_addrs (48 * hour) cab

replace_peer_addrs_drops_stale_example :
    (identified_with (direct_addr ∷ []) []).addr_book peer relay_addr ≡ 0
unfolding sample_book-laws
replace_peer_addrs_drops_stale_example =
    replace_peer_addrs_drops_stale limits sample_book sample_book-laws 100 peer none
      (direct_addr ∷ []) [] (48 * hour) cab relay_addr refl (λ e h. absurd (ground arith))
      not_relay_addr not-mem-nil

replace_peer_addrs_relay_ttl_example :
    (identified_with (relay_addr ∷ []) []).addr_book peer relay_addr ≤ 100 + 2 * hour
unfolding sample_book-laws is_relay_addr
replace_peer_addrs_relay_ttl_example =
    replace_peer_addrs_relay_ttl limits sample_book sample_book-laws 100 peer none (relay_addr ∷ [])
      [] (48 * hour) cab relay_addr refl refl not-mem-nil

abbrev cached : Cab
cached = cache_addrs limits sample_book 100 peer (direct_addr ∷ []) cab

cache_addrs_expiry_example :
    (900 ≤ cached.addr_book peer direct_addr)
    × (cached.addr_book peer direct_addr
        ≤ max 900 (100 + (if is_relay_addr direct_addr then 2 * hour else 48 * hour)))
unfolding sample_book-laws
cache_addrs_expiry_example =
    cache_addrs_expiry limits sample_book sample_book-laws 100 peer (direct_addr ∷ []) cab
      direct_addr

should_probe_after_failures_example :
    should_probe_peer limits sample_book list_cache 100 peer
      (fail_times limits sample_book list_cache 3 100 peer cab)
    ≡ (if ltb 2 22 then false else true)
unfolding someguy.Samples.Caches.lookup
should_probe_after_failures_example =
    should_probe_after_failures limits sample_book list_cache list_cache-laws 2 100 peer cab refl
      (omega arith)

abbrev late : ℕ
late = 50 * hour
