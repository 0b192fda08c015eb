-- ===== src/CachedRouter/Fallback.antt =====
-- server_cached_router.go: cacheFallbackIter. Next is a loop of rounds, and the lookups that it
-- dispatches are steps in the background, between any two rounds.
use someguy.Prelude.{
  false, ℕ, suc, ◌+◌, ltb, ◌≡◌, ◌≢◌, Bool, true, not, ◌&&◌, Option, none, some, List, [], ◌∷◌, ◌++◌,
  length, is_empty, map, if◌then◌else◌,
}
use someguy.Prelude.Bytes.{Bytes, codes}
use someguy.Lru.{Lru}
use someguy.Multiaddr.{Multiaddr}
use someguy.AddrBook.{AddrBook}
use someguy.Records.{
  no_value_available, failure, Schema, schema_peer, PeerRecord, Record, peer_record, Result,
}
use someguy.Routers.Compose.{Fallible, ok, fails}
use someguy.CachedAddrBook.Types.{Limits, PeerState, CachedAddrBook}
use someguy.CachedAddrBook.Probing.{
  should_probe_peer, try_acquire_find_peer_slot, release_find_peer_slot,
}
use someguy.CachedAddrBook.Addrs.{cache_addrs}
use someguy.CachedRouter.{with_addrs_from_cache, find_peers}

abbrev pub results_capacity : ℕ
results_capacity = 100

-- `source` is what the source iterator has left, `results` the channel findPeersResult. The lookups
-- that were dispatched are the running ones, those that have sent their result or given it up, and
-- those that have given back their slot: together they are ongoingLookups.
pub record FallbackIter (B C A : Type 0) : Type 0 where
  pub source : List (Result (Record A))
  pub current : Result (Record A)
  pub results : List (PeerRecord A)
  pub running : List (PeerRecord A)
  pub sent : ℕ
  pub released : ℕ
  pub canceled : Bool
  pub from_providers : Bool
  pub cab : CachedAddrBook B C A

abbrev pub ongoing_lookups : {B C A : Type 0} → FallbackIter B C A → ℕ
ongoing_lookups it = length it.running + it.sent + it.released

unfoldable pub new_cache_fallback_iter :
    {B C A : Type 0}
    → List (Result (Record A))
    → (from_providers : Bool) → CachedAddrBook B C A
    → FallbackIter B C A
new_cache_fallback_iter source from_providers cab = record {
  source = source;
  current = record { val = none; err = none };
  results = [];
  running = [];
  sent = 0;
  released = 0;
  canceled = false;
  from_providers = from_providers;
  cab = cab;
}

-- applyPeerRecordCaching: its two maps around a cacheFallbackIter.
unfoldable pub to_record_result : {A : Type 0} → Result (PeerRecord A) → Result (Record A)
to_record_result v = elim v.err [
  | some e ↦ record { val = none; err = some e }
  | none ↦ record { val = elim v.val [ none ↦ none | some r ↦ some (peer_record r) ]; err = none }
]

abbrev cast_peer : {A : Type 0} → Option (Record A) → Result (PeerRecord A)
cast_peer (some (peer_record r)) = record { val = some r; err = none }
cast_peer r = record { val = none; err = some (failure (codes "unexpected record type")) }

unfoldable pub from_record_result : {A : Type 0} → Result (Record A) → Result (PeerRecord A)
from_record_result v = elim v.err [
  | some e ↦ record { val = none; err = some e }
  | none ↦ cast_peer v.val
]

unfoldable pub apply_peer_record_caching :
    {B C A : Type 0} → List (Result (PeerRecord A)) → CachedAddrBook B C A → FallbackIter B C A
unfolding new_cache_fallback_iter to_record_result
apply_peer_record_caching vs cab = new_cache_fallback_iter (map to_record_result vs) false cab

-- How a round of Next ends. A nil record or a peer record without an ID panics.
pub data Verdict : Type 0 where
  yields goes_on ends panics : Verdict

-- iter.ReadAllResults stops at the first error.
unfoldable pub read_all_results : {T : Type 0} → List (Result T) → Option (List (Option T))
read_all_results [] = some []
read_all_results (v ∷ vs) =
    let rest = read_all_results vs in
    elim v.err [ some e ↦ none | none ↦ elim rest [ none ↦ none | some l ↦ some (v.val ∷ l) ] ]

abbrev first_found :
    {A : Type 0} → PeerRecord A → Option (List (Option (PeerRecord A))) → Option (PeerRecord A)
first_found r none = some r
first_found r (some []) = some r
first_found r (some (p ∷ ps)) = p

-- What a dispatched lookup sends: the first record that FindPeers finds, or the record itself. A
-- nil record panics.
unfoldable pub found_record :
    {A : Type 0} → PeerRecord A → Fallible (List (Result (PeerRecord A))) → Option (PeerRecord A)
unfolding read_all_results
found_record r (fails e) = some r
found_record r (ok vs) = first_found r (read_all_results vs)

module _ {B C A E : Type 0} ⦃m : Multiaddr A⦄ (limits : Limits) (book : AddrBook B A E)
    (cache : Lru C Bytes PeerState) where
  -- A record without addresses in the cache either: a lookup starts, if the peer is due and a slot is free.
  unfoldable pub dispatch :
      ℕ → Bytes → PeerRecord A → FallbackIter B C A → Verdict × FallbackIter B C A
  unfolding try_acquire_find_peer_slot
  dispatch now pid r it =
      let (acquired, cab') = try_acquire_find_peer_slot it.cab in
      if should_probe_peer limits book cache now pid it.cab
      then if acquired
        then (goes_on, record it { cab = cab'; running = it.running ++ (r ∷ []) })
        else (goes_on, record it { cab = cab' })
      else (goes_on, it)

  unfoldable pub take_peer :
      ℕ → Bytes → PeerRecord A → FallbackIter B C A → Verdict × FallbackIter B C A
  unfolding with_addrs_from_cache dispatch
  take_peer now pid r it =
      let addrs = (with_addrs_from_cache limits book cache now pid r.addrs it.cab).0 in
      if is_empty addrs then dispatch now pid (record r { addrs = addrs }) it else (
        yields,
        record it {
          current = record { val = some (peer_record (record r { addrs = addrs })); err = none };
          cab =
              (if not (is_empty r.addrs) && it.from_providers
                then cache_addrs limits book now pid addrs it.cab
                else it.cab);
        },
      )

  abbrev take_schema :
      ℕ
      → Schema
      → PeerRecord A
      → Result (Record A)
      → FallbackIter B C A
      → Verdict × FallbackIter B C A
  take_schema now schema_peer r v it = elim r.id [
    | none ↦ (panics, it)
    | some pid ↦ take_peer now pid r it
  ]
  take_schema now s r v it = (yields, record it { current = v })

  -- A round that has a value from the source.
  unfoldable pub take_value :
      ℕ → Result (Record A) → FallbackIter B C A → Verdict × FallbackIter B C A
  unfolding take_peer
  take_value now v it = elim v.val [
    | none ↦ (panics, it)
    | some (peer_record r) ↦ take_schema now r.schema r v it
    | some r ↦ (yields, record it { current = v })
  ]

  -- A round that receives the result of a lookup.
  unfoldable pub take_found : PeerRecord A → FallbackIter B C A → Verdict × FallbackIter B C A
  take_found r it =
      if is_empty r.addrs
      then (goes_on, it)
      else (yields, record it { current = record { val = some (peer_record r); err = none } })

  pub data Round : FallbackIter B C A → Verdict × FallbackIter B C A → Type 0 where
    from_source :
        (it : FallbackIter B C A) (now : ℕ) (v : Result (Record A))
        (rest : List (Result (Record A)))
        → it.source ≡ v ∷ rest
        → Round it (take_value now v (record it { source = rest }))
    no_lookups :
        (it : FallbackIter B C A) → it.source ≡ [] → ongoing_lookups it ≡ 0 → Round it (ends, it)
    from_lookup :
        (it : FallbackIter B C A) (r : PeerRecord A) (rest : List (PeerRecord A))
        → it.source ≡ []
        → ongoing_lookups it ≢ 0
        → it.results ≡ r ∷ rest
        → Round it (take_found r (record it { results = rest }))
    context_done :
        (it : FallbackIter B C A)
        → it.source ≡ []
        → ongoing_lookups it ≢ 0
        → it.canceled ≡ true
        → Round it (ends, it)
    timed_out :
        (it : FallbackIter B C A) → it.source ≡ [] → ongoing_lookups it ≢ 0 → Round it (goes_on, it)

  -- A dispatched lookup of a peer, with what the wrapped router answers: dispatchFindPeer up to its
  -- deferred calls. Its result goes into the channel, unless the iterator was closed or the
  -- channel is full. The lookup is one step: its FindPeers reads the cache at one instant.
  unfoldable pub finish_lookup :
      ℕ
      → Fallible (List (Result (PeerRecord A)))
      → Bytes
      → PeerRecord A
      → List (PeerRecord A)
      → FallbackIter B C A
      → Option (FallbackIter B C A)
  unfolding find_peers found_record
  finish_lookup now answer pid r running it =
      let (found, cab') = find_peers limits book cache now pid answer it.cab now it.cab in
      let it' = record it { cab = cab'; running = running; sent = suc it.sent } in
      if it.canceled then some it' else elim (found_record r found) [
        | none ↦ none
        | some q ↦
            if ltb (length it.results) results_capacity
            then some (record it' { results = it.results ++ (q ∷ []) })
            else some it'
      ]

  -- The steps of the lookups, and the end of the iterator's context.
  pub data Background : FallbackIter B C A → FallbackIter B C A → Type 0 where
    finishes :
        (it it' : FallbackIter B C A) (now : ℕ) (answer : Fallible (List (Result (PeerRecord A))))
        (pid : Bytes) (before after : List (PeerRecord A)) (r : PeerRecord A)
        → it.running ≡ before ++ (r ∷ after)
        → r.id ≡ some pid
        → finish_lookup now answer pid r (before ++ after) it ≡ some it'
        → Background it it'
    releases :
        (it : FallbackIter B C A) (n : ℕ) (cab' : CachedAddrBook B C A)
        → it.sent ≡ suc n
        → release_find_peer_slot it.cab ≡ some cab'
        → Background it (record it { sent = n; released = suc it.released; cab = cab' })
    ends_lookup :
        (it : FallbackIter B C A) (n : ℕ)
        → it.released ≡ suc n
        → Background it (record it { released = n })
    cancels : (it : FallbackIter B C A) → Background it (record it { canceled = true })

  -- Val
  unfoldable pub current_value : FallbackIter B C A → Result (Record A)
  current_value it = elim it.current.val [
    | some r ↦ it.current
    | none ↦ elim it.current.err [
      | some e ↦ it.current
      | none ↦ record { val = none; err = some no_value_available }
    ]
  ]
