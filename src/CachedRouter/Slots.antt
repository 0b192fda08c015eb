-- ===== src/CachedRouter/Slots.antt =====
-- The slots of background lookups (cached_addr_book.go, server_cached_router.go).
use someguy.Prelude.{
  ℕ, ◌+◌, ◌≤◌, ◌≡◌, ◌≢◌, inl, inr, none, some, List, [], ◌∷◌, ◌++◌, length, length-append, arith,
  Option-cases,
}
use someguy.Prelude.Bytes.{Bytes}
use someguy.Lru.{Lru}
use someguy.Multiaddr.{Multiaddr}
use someguy.AddrBook.{AddrBook}
use someguy.Records.{PeerRecord, Record, peer_record, bitswap_record, other_record, Result}
use someguy.Routers.Compose.{Fallible}
use someguy.CachedAddrBook.Types.{Limits, PeerState, CachedAddrBook}
use someguy.CachedAddrBook.Probing.{record_failed_connection, release_find_peer_slot}
use someguy.CachedAddrBook.Addrs.{cache_addrs}
use someguy.CachedRouter.{with_addrs_from_cache, find_peers}
use someguy.CachedRouter.Fallback.{
  FallbackIter, Verdict, dispatch, take_peer, take_value, take_found, Round, from_source,
  no_lookups, from_lookup, context_done, timed_out, finish_lookup, Background, finishes, releases,
  ends_lookup, cancels,
}

-- The slots of the semaphore are those that others hold and those of the lookups of this iterator that
-- have not given theirs back, and no more than there are.
pub record IsHeld {B C A : Type 0} (others : ℕ) (it : FallbackIter B C A) : Type 0 where
  pub held : it.cab.slots_held ≡ others + length it.running + it.sent
  pub within : it.cab.slots_held ≤ it.cab.find_peer_slots

module _ {B C A E : Type 0} ⦃m : Multiaddr A⦄ (limits : Limits) (book : AddrBook B A E)
    (cache : Lru C Bytes PeerState) where
  abbrev pub SameSlots : CachedAddrBook B C A → CachedAddrBook B C A → Type 0
  SameSlots c d = (d.slots_held ≡ c.slots_held) × (d.find_peer_slots ≡ c.find_peer_slots)

  cache_addrs-slots :
      (now : ℕ) (pid : Bytes) (addrs : List A) (cab : CachedAddrBook B C A)
      → SameSlots cab (cache_addrs limits book now pid addrs cab)
  unfolding cache_addrs
  cache_addrs-slots now pid addrs cab = ground arith

  record_failed_connection-slots :
      (now : ℕ) (pid : Bytes) (cab : CachedAddrBook B C A)
      → SameSlots cab (record_failed_connection limits book cache now pid cab)
  unfolding record_failed_connection
  record_failed_connection-slots now pid cab = ground arith

  pub find_peers-slots :
      (now : ℕ) (pid : Bytes) (answer : Fallible (List (Result (PeerRecord A))))
      (cab : CachedAddrBook B C A)
      → SameSlots cab (find_peers limits book cache now pid answer cab now cab).1
  unfolding find_peers
  find_peers-slots now pid answer cab = ground (arith, record_failed_connection-slots now pid cab)

  dispatch-IsHeld :
      (others now : ℕ) (pid : Bytes) (r : PeerRecord A) (it : FallbackIter B C A)
      → IsHeld others it
      → IsHeld others (dispatch limits book cache now pid r it).1
  unfolding dispatch
  dispatch-IsHeld others now pid r it h = ground (arith, length-append it.running (r ∷ []))

  take_peer-IsHeld :
      (others now : ℕ) (pid : Bytes) (r : PeerRecord A) (it : FallbackIter B C A)
      → IsHeld others it
      → IsHeld others (take_peer limits book cache now pid r it).1
  unfolding take_peer
  take_peer-IsHeld others now pid r it h = ground (
    arith,
    dispatch-IsHeld others now pid (record r { addrs = addrs }) it,
    cache_addrs-slots now pid addrs it.cab,
  )
    where
      addrs : List A
      addrs = (with_addrs_from_cache limits book cache now pid r.addrs it.cab).0

  take_record-IsHeld :
      (others now : ℕ) (r : Record A) (v : Result (Record A)) (it : FallbackIter B C A)
      → v.val ≡ some r
      → IsHeld others it
      → IsHeld others (take_value limits book cache now v it).1
  unfolding take_value
  take_record-IsHeld others now (peer_record r) v it e h = elim (Option-cases r.id) [
    | inl n ↦ ground arith
    | inr (pid, q) ↦ ground (arith, take_peer-IsHeld others now pid r it)
  ]
  take_record-IsHeld others now (bitswap_record r) v it e h = ground arith
  take_record-IsHeld others now (other_record s b) v it e h = ground arith

  take_found-IsHeld :
      (others : ℕ) (r : PeerRecord A) (it : FallbackIter B C A)
      → IsHeld others it
      → IsHeld others (take_found limits book cache r it).1
  unfolding take_found
  take_found-IsHeld others r it h = ground arith

  -- A round of Next keeps the account of the slots: a lookup is counted just when it has a slot, and
  -- the slots that are held never exceed the cap.
  pub Round-IsHeld :
      (others : ℕ) (it : FallbackIter B C A) (p : Verdict × FallbackIter B C A)
      → Round limits book cache it p
      → IsHeld others it
      → IsHeld others p.1
  unfolding take_value
  Round-IsHeld others it p (from_source _ now v rest e) h = elim (Option-cases v.val) [
    | inl n ↦ ground arith
    | inr (r, q) ↦
        take_record-IsHeld others now r v (record it { source = rest }) q
          (record { held = h.held; within = h.within })
  ]
  Round-IsHeld others it p (no_lookups _ e o) h = h
  Round-IsHeld others it p (from_lookup _ r rest e o q) h =
      take_found-IsHeld others r (record it { results = rest })
        (record { held = h.held; within = h.within })
  Round-IsHeld others it p (context_done _ e o c) h = h
  Round-IsHeld others it p (timed_out _ e o) h = h

  finish_lookup-IsHeld :
      (others now : ℕ) (answer : Fallible (List (Result (PeerRecord A)))) (pid : Bytes)
      (r : PeerRecord A) (before after : List (PeerRecord A)) (it it' : FallbackIter B C A)
      → it.running ≡ before ++ (r ∷ after)
      → finish_lookup limits book cache now answer pid r (before ++ after) it ≡ some it'
      → IsHeld others it
      → IsHeld others it'
  unfolding finish_lookup
  finish_lookup-IsHeld others now answer pid r before after it it' e q h = ground (
    arith,
    find_peers-slots now pid answer it.cab,
    length-append before (r ∷ after),
    length-append before after,
  )

  -- A step of a background lookup keeps the account too, whether the lookup found its peer or
  -- not, and also when the request was canceled.
  pub Background-IsHeld :
      (others : ℕ) (it it' : FallbackIter B C A)
      → Background limits book cache it it'
      → IsHeld others it
      → IsHeld others it'
  unfolding release_find_peer_slot
  Background-IsHeld others it it' (finishes _ _ now answer pid before after r e i q) h =
      finish_lookup-IsHeld others now answer pid r before after it it' e q h
  Background-IsHeld others it it' (releases _ n cab' e q) h = ground arith
  Background-IsHeld others it it' (ends_lookup _ n e) h = record {
    held = h.held;
    within = h.within;
  }
  Background-IsHeld others it it' (cancels _) h = record { held = h.held; within = h.within }

  -- While a lookup has a slot to give back, giving it back does not block.
  pub release_never_blocks :
      (others : ℕ) (it : FallbackIter B C A)
      → IsHeld others it
      → it.sent ≢ 0
      → release_find_peer_slot it.cab ≢ none
  unfolding release_find_peer_slot
  release_never_blocks others it h s = ground arith
