-- ===== src/CachedRouter/Named.antt =====
-- The IDs of the records that cacheFallbackIter (server_cached_router.go) dispatches lookups for.
use someguy.Prelude.{
  ℕ, suc, ◌≡◌, ◌≢◌, inl, inr, none, some, List, [], ◌∷◌, ◌++◌, All, All-append, arith, Option-cases,
}
use someguy.Prelude.Bytes.{Bytes}
use someguy.Lru.{Lru}
use someguy.Multiaddr.{Multiaddr}
use someguy.AddrBook.{AddrBook}
use someguy.Records.{PeerRecord, Record, peer_record, bitswap_record, other_record, Result}
use someguy.Routers.Compose.{Fallible}
use someguy.CachedAddrBook.Types.{Limits, PeerState}
use someguy.CachedRouter.{with_addrs_from_cache}
use someguy.CachedRouter.Fallback.{
  FallbackIter, Verdict, dispatch, take_peer, take_value, take_found, Round, from_source,
  no_lookups, from_lookup, context_done, timed_out, finish_lookup, Background, finishes, releases,
  ends_lookup, cancels, new_cache_fallback_iter,
}
use someguy.CachedRouter.Reach.{
  Reachable, begins, next, in_background, other_acquires, other_releases,
}

abbrev pub IsNamed : {A : Type 0} → PeerRecord A → Type 0
IsNamed r = r.id ≢ none

All-remove :
    {A : Type 0} (P : A → Type 0) (before after : List A) (x : A)
    → All P (before ++ (x ∷ after))
    → All P (before ++ after)
All-remove P [] after x h = h.1
All-remove P (y ∷ before) after x h = (h.0, All-remove P before after x h.1)

module _ {B C A E : Type 0} ⦃m : Multiaddr A⦄ (limits : Limits) (book : AddrBook B A E)
    (cache : Lru C Bytes PeerState) where
  abbrev AllNamed : FallbackIter B C A → Type 0
  AllNamed it = All IsNamed it.running

  dispatch-IsNamed :
      (now : ℕ) (pid : Bytes) (r : PeerRecord A) (it : FallbackIter B C A)
      → r.id ≢ none
      → AllNamed it
      → AllNamed (dispatch limits book cache now pid r it).1
  unfolding dispatch
  dispatch-IsNamed now pid r it i h =
      ground (arith, All-append IsNamed it.running (r ∷ []) h (i, tt))

  take_peer-IsNamed :
      (now : ℕ) (pid : Bytes) (r : PeerRecord A) (it : FallbackIter B C A)
      → r.id ≢ none
      → AllNamed it
      → AllNamed (take_peer limits book cache now pid r it).1
  unfolding take_peer
  take_peer-IsNamed now pid r it i h = ground (
    arith,
    dispatch-IsNamed now pid
        (record r { addrs = (with_addrs_from_cache limits book cache now pid r.addrs it.cab).0 })
        it,
  )

  take_record-IsNamed :
      (now : ℕ) (r : Record A) (v : Result (Record A)) (it : FallbackIter B C A)
      → v.val ≡ some r
      → AllNamed it
      → AllNamed (take_value limits book cache now v it).1
  unfolding take_value
  take_record-IsNamed now (peer_record r) v it e h = elim (Option-cases r.id) [
    | inl n ↦ ground arith
    | inr (pid, q) ↦ ground (arith, take_peer-IsNamed now pid r it)
  ]
  take_record-IsNamed now (bitswap_record r) v it e h = ground arith
  take_record-IsNamed now (other_record s b) v it e h = ground arith

  take_found-running :
      (r : PeerRecord A) (it : FallbackIter B C A)
      → (take_found limits book cache r it).1.running ≡ it.running
  unfolding take_found
  take_found-running r it = ground arith

  pub Round-IsNamed :
      (it : FallbackIter B C A) (p : Verdict × FallbackIter B C A)
      → Round limits book cache it p
      → All IsNamed it.running
      → All IsNamed p.1.running
  unfolding take_value
  Round-IsNamed it p (from_source _ now v rest e) h = elim (Option-cases v.val) [
    | inl n ↦ ground arith
    | inr (r, q) ↦ take_record-IsNamed now r v (record it { source = rest }) q h
  ]
  Round-IsNamed it p (no_lookups _ e o) h = h
  Round-IsNamed it p (from_lookup _ r rest e o q) h =
      rw (take_found-running r (record it { results = rest })) h
  Round-IsNamed it p (context_done _ e o c) h = h
  Round-IsNamed it p (timed_out _ e o) h = h

  finish_lookup-running :
      (now : ℕ) (answer : Fallible (List (Result (PeerRecord A)))) (pid : Bytes) (r : PeerRecord A)
      (rest : List (PeerRecord A)) (it it' : FallbackIter B C A)
      → finish_lookup limits book cache now answer pid r rest it ≡ some it'
      → it'.running ≡ rest
  unfolding finish_lookup
  finish_lookup-running now answer pid r rest it it' q = ground arith

  pub Background-IsNamed :
      (it it' : FallbackIter B C A)
      → Background limits book cache it it'
      → All IsNamed it.running
      → All IsNamed it'.running
  Background-IsNamed it it' (finishes _ _ now answer pid before after r e i q) h =
      rw (finish_lookup-running now answer pid r (before ++ after) it it' q)
        (All-remove IsNamed before after r (rw (← e) h))
  Background-IsNamed it it' (releases _ n cab' e q) h = h
  Background-IsNamed it it' (ends_lookup _ n e) h = h
  Background-IsNamed it it' (cancels _) h = h

  -- Every record that is looked up in the background has an ID.
  pub Reachable-IsNamed :
      (others : ℕ) (it : FallbackIter B C A)
      → Reachable limits book cache others it
      → All IsNamed it.running
  unfolding new_cache_fallback_iter
  Reachable-IsNamed _ _ (begins source from_providers cab h) = tt
  Reachable-IsNamed others _ (next {it = it} {p = p} r s) =
      Round-IsNamed it p s (Reachable-IsNamed others it r)
  Reachable-IsNamed others it' (in_background {it = it} r s) =
      Background-IsNamed it it' s (Reachable-IsNamed others it r)
  Reachable-IsNamed _ _ (other_acquires {others = others} {it = it} r h) =
      Reachable-IsNamed others it r
  Reachable-IsNamed others _ (other_releases {it = it} r e) = Reachable-IsNamed (suc others) it r
