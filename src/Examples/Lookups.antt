-- ===== src/Examples/Lookups.antt =====
-- A lookup in the background that finds a peer.
use someguy.CachedRouter.Drains.{Moves, IsDrained, Reachable-drains}
use someguy.CachedRouter.Ends.{weight, Run-bounded}
use someguy.CachedRouter.Reach.{begins, next, Reachable-IsSound}
use someguy.Prelude.{
  ◌≡◌, ◌≢◌, refl, true, false, none, some, List, [], ◌∷◌, arith, ◌⊎◌, ◌+◌, ◌*◌, ◌≤◌,
}
use someguy.Prelude.Bytes.{Bytes}
use someguy.Records.{schema_peer, PeerRecord, Record, peer_record, Result}
use someguy.Routers.Compose.{Fallible, ok}
use someguy.CachedAddrBook.Types.{PeerState}
use someguy.CachedAddrBook.Probing.{release_find_peer_slot}
use someguy.CachedRouter.{find_peers}
use someguy.CachedRouter.Fallback.{
  FallbackIter, Verdict, ends, Round, from_lookup, take_found, found_record,
  new_cache_fallback_iter, take_value, from_source,
}
use someguy.CachedRouter.Yields.{IsReachable, Round-IsReachable}
use someguy.CachedRouter.Ends
use someguy.CachedRouter.Slots.{IsHeld}
use someguy.CachedRouter.Peers.{Serves, find_peers-Serves}
use someguy.CachedRouter.Lost.{Steps, result_is_lost}
use someguy.Samples.Caches.{list_cache}
use someguy.Samples.Books.{
  Book, SampleAddr, direct_addr, sample_multiaddr, sample_book, limits, cab, peer, Cab,
}

abbrev Iter : Type 0
Iter = FallbackIter Book (List (Bytes × PeerState)) SampleAddr

abbrev peer_with : List SampleAddr → PeerRecord SampleAddr
peer_with addrs = record { schema = schema_peer; id = some peer; addrs = addrs; protocols = [] }

abbrev result_with : List SampleAddr → Result (Record SampleAddr)
result_with addrs = record { val = some (peer_record (peer_with addrs)); err = none }

-- The book is empty, and one slot is taken by the iterator's lookup.
abbrev busy : Cab
busy = record cab { addr_book = λ p a. 0; slots_held = 1 }

abbrev iter : Iter
iter = record {
  source = [];
  current = record { val = none; err = none };
  results = peer_with (direct_addr ∷ []) ∷ [];
  running = peer_with [] ∷ [];
  sent = 0;
  released = 0;
  canceled = false;
  from_providers = true;
  cab = busy;
}

abbrev sent_iter : Iter
sent_iter = record iter { running = []; sent = 1 }

abbrev received_here : Verdict × Iter
received_here =
    take_found limits sample_book list_cache (peer_with (direct_addr ∷ []))
      (record iter { results = [] })

receives : Round limits sample_book list_cache iter received_here
receives = from_lookup iter (peer_with (direct_addr ∷ [])) [] refl (ground arith) refl

Round-IsReachable_example : IsReachable received_here.1.current
unfolding take_found
Round-IsReachable_example =
    Round-IsReachable limits sample_book list_cache iter received_here receives refl

abbrev found_result : Fallible (List (Result (PeerRecord SampleAddr)))
found_result = ok (record { val = some (peer_with (direct_addr ∷ [])); err = none } ∷ [])

abbrev quiet : Iter
quiet = record iter { results = [] }

result_is_lost_example :
    (it' : Iter) × Steps limits sample_book list_cache quiet it'
    × Round limits sample_book list_cache it' (ends, it')
    × (it'.results ≡ peer_with (direct_addr ∷ []) ∷ [])
unfolding find_peers found_record
result_is_lost_example =
    result_is_lost limits sample_book list_cache quiet 100 0 peer (peer_with [])
      (peer_with (direct_addr ∷ [])) found_result refl refl refl refl refl refl refl refl refl

find_peers-Serves_example :
    Serves limits sample_book list_cache 100 cab
      (find_peers limits sample_book list_cache 90 peer
        (ok (record { val = some (peer_with []); err = none } ∷ []))
        cab
        100
        cab).0
find_peers-Serves_example =
    find_peers-Serves limits sample_book list_cache 100 cab 90 cab peer
      (ok (record { val = some (peer_with []); err = none } ∷ []))

-- A provider without addresses, which is looked up in the background.
abbrev fresh : Iter
fresh = new_cache_fallback_iter (result_with [] ∷ []) true cab

abbrev dispatched : Verdict × Iter
dispatched =
    take_value limits sample_book list_cache 100 (result_with []) (record fresh { source = [] })

reads : Round limits sample_book list_cache fresh dispatched
unfolding new_cache_fallback_iter
reads = from_source fresh 100 (result_with []) [] refl

Reachable-IsSound_example :
    IsHeld 0 dispatched.1
    × ((dispatched.1.sent ≡ 0) ⊎ (release_find_peer_slot dispatched.1.cab ≢ none))
Reachable-IsSound_example =
    Reachable-IsSound limits sample_book list_cache 0 dispatched.1
      (next (begins (result_with [] ∷ []) true cab (omega arith)) reads)

Run-bounded_example : 1 + weight dispatched.1 ≤ 5 * 1
unfolding new_cache_fallback_iter
Run-bounded_example =
    Run-bounded limits sample_book list_cache 1 (result_with [] ∷ []) true cab dispatched.1
      (Ends.next (from_source fresh 100 (result_with []) [] refl) Ends.stays)

-- The provider that was read is looked up, found, and handed over.
Reachable-drains_example :
    (it' : Iter) × Moves limits sample_book list_cache (λ pid. found_result) dispatched.1 it'
    × IsDrained limits sample_book list_cache it'
    × Round limits sample_book list_cache it' (ends, it')
unfolding take_value new_cache_fallback_iter
Reachable-drains_example =
    Reachable-drains limits sample_book list_cache (λ pid. found_result) (λ pid. ground arith) 0
      dispatched.1 (next (begins (result_with [] ∷ []) true cab (omega arith)) reads) tt
