-- ===== src/CachedRouter/Ends.antt =====
-- How many steps an iterator of server_cached_router.go can make, with the lookups that it dispatches.
use someguy.Prelude.{
  ℕ, ◌+◌, ◌*◌, ◌≤◌, ◌≡◌, inl, inr, Bool, some, List, [], ◌∷◌, ◌++◌, length, length-append, arith,
  Option-cases, ap,
}
use someguy.Prelude.Bytes.{Bytes}
use someguy.Lru.{Lru}
use someguy.Multiaddr.{Multiaddr}
use someguy.AddrBook.{AddrBook}
use someguy.Records.{PeerRecord, Record, peer_record, bitswap_record, other_record, Result}
use someguy.Routers.Compose.{Fallible}
use someguy.CachedAddrBook.Types.{Limits, PeerState, CachedAddrBook}
use someguy.CachedRouter.{with_addrs_from_cache, find_peers}
use someguy.CachedRouter.Fallback.{
  FallbackIter, Verdict, dispatch, take_peer, take_value, take_found, Round, from_source,
  no_lookups, from_lookup, context_done, timed_out, finish_lookup, Background, finishes, releases,
  ends_lookup, cancels, new_cache_fallback_iter, found_record,
}

-- Each value of the source, running lookup, and so on, by the steps that may still come of it.
abbrev pub weight : {B C A : Type 0} → FallbackIter B C A → ℕ
weight it =
    5 * length it.source + 4 * length it.running + 2 * it.sent + it.released + length it.results

module _ {B C A E : Type 0} ⦃m : Multiaddr A⦄ (limits : Limits) (book : AddrBook B A E)
    (cache : Lru C Bytes PeerState) where
  dispatch-weight :
      (now : ℕ) (pid : Bytes) (r : PeerRecord A) (it : FallbackIter B C A)
      → weight (dispatch limits book cache now pid r it).1 ≤ weight it + 4
  unfolding dispatch
  dispatch-weight now pid r it = ground (arith, length-append it.running (r ∷ []))

  take_peer-weight :
      (now : ℕ) (pid : Bytes) (r : PeerRecord A) (it : FallbackIter B C A)
      → weight (take_peer limits book cache now pid r it).1 ≤ weight it + 4
  unfolding take_peer
  take_peer-weight now pid r it = ground (
    arith,
    dispatch-weight now pid
        (record r { addrs = (with_addrs_from_cache limits book cache now pid r.addrs it.cab).0 })
        it,
  )

  take_record-weight :
      (now : ℕ) (r : Record A) (v : Result (Record A)) (it : FallbackIter B C A)
      → v.val ≡ some r
      → weight (take_value limits book cache now v it).1 ≤ weight it + 4
  unfolding take_value
  take_record-weight now (peer_record r) v it e = elim (Option-cases r.id) [
    | inl n ↦ ground arith
    | inr (pid, q) ↦ ground (arith, take_peer-weight now pid r it)
  ]
  take_record-weight now (bitswap_record r) v it e = ground arith
  take_record-weight now (other_record s b) v it e = ground arith

  take_value-weight :
      (now : ℕ) (v : Result (Record A)) (it : FallbackIter B C A)
      → weight (take_value limits book cache now v it).1 ≤ weight it + 4
  unfolding take_value
  take_value-weight now v it = elim (Option-cases v.val) [
    | inl n ↦ ground arith
    | inr (r, e) ↦ take_record-weight now r v it e
  ]

  take_found-weight :
      (r : PeerRecord A) (it : FallbackIter B C A)
      → weight (take_found limits book cache r it).1 ≡ weight it
  unfolding take_found
  take_found-weight r it = ground arith

  -- A round that reads a value or a result is counted; one that ends or waits is not.
  abbrev pub counted_round :
      (it : FallbackIter B C A) (p : Verdict × FallbackIter B C A)
      → Round limits book cache it p
      → ℕ
  counted_round it p (from_source _ now v rest e) = 1
  counted_round it p (no_lookups _ e o) = 0
  counted_round it p (from_lookup _ r rest e o q) = 1
  counted_round it p (context_done _ e o c) = 0
  counted_round it p (timed_out _ e o) = 0

  pub Round-weight :
      (it : FallbackIter B C A) (p : Verdict × FallbackIter B C A)
      (s : Round limits book cache it p)
      → counted_round it p s + weight p.1 ≤ weight it
  Round-weight it p (from_source _ now v rest e) =
      omega (arith, take_value-weight now v (record it { source = rest }), ap length e)
  Round-weight it p (no_lookups _ e o) = omega arith
  Round-weight it p (from_lookup _ r rest e o q) =
      omega (arith, take_found-weight r (record it { results = rest }), ap length q)
  Round-weight it p (context_done _ e o c) = omega arith
  Round-weight it p (timed_out _ e o) = omega arith

  -- Every step of a lookup is counted, a cancellation is not.
  abbrev pub counted_background :
      (it it' : FallbackIter B C A) → Background limits book cache it it' → ℕ
  counted_background it it' (finishes _ _ now answer pid before after r e i q) = 1
  counted_background it it' (releases _ n cab' e q) = 1
  counted_background it it' (ends_lookup _ n e) = 1
  counted_background it it' (cancels _) = 0

  finish_lookup-weight :
      (now : ℕ) (answer : Fallible (List (Result (PeerRecord A)))) (pid : Bytes) (r : PeerRecord A)
      (before after : List (PeerRecord A)) (it it' : FallbackIter B C A)
      → it.running ≡ before ++ (r ∷ after)
      → finish_lookup limits book cache now answer pid r (before ++ after) it ≡ some it'
      → 1 + weight it' ≤ weight it
  unfolding finish_lookup
  finish_lookup-weight now answer pid r before after it it' e q =
      elim (Option-cases
        (found_record r (find_peers limits book cache now pid answer it.cab now it.cab).0)) [
          | inl n ↦
              ground
                (arith, ap length e, length-append before (r ∷ after), length-append before after)
          | inr (x, found) ↦ ground (
            arith,
            ap length e,
            length-append before (r ∷ after),
            length-append before after,
            length-append it.results (x ∷ []),
          )
        ]

  pub Background-weight :
      (it it' : FallbackIter B C A) (s : Background limits book cache it it')
      → counted_background it it' s + weight it' ≤ weight it
  Background-weight it it' (finishes _ _ now answer pid before after r e i q) =
      finish_lookup-weight now answer pid r before after it it' e q
  Background-weight it it' (releases _ n cab' e q) = ground (arith, e)
  Background-weight it it' (ends_lookup _ n e) = ground (arith, e)
  Background-weight it it' (cancels _) = omega arith

  -- A run of rounds and lookups, with the number of its steps that are counted.
  pub data Run : ℕ → FallbackIter B C A → FallbackIter B C A → Type 0 where
    stays : {it : FallbackIter B C A} → Run 0 it it
    next :
        {n : ℕ} {it it' : FallbackIter B C A} {p : Verdict × FallbackIter B C A}
        (s : Round limits book cache it p)
        → Run n p.1 it'
        → Run (counted_round it p s + n) it it'
    in_background :
        {n : ℕ} {it it₁ it' : FallbackIter B C A} (s : Background limits book cache it it₁)
        → Run n it₁ it'
        → Run (counted_background it it₁ s + n) it it'

  Run-weight : (n : ℕ) (it it' : FallbackIter B C A) → Run n it it' → n + weight it' ≤ weight it
  Run-weight _ _ _ stays = omega arith
  Run-weight _ it it' (next {n = n} {p = p} s r) =
      omega (arith, Round-weight it p s, Run-weight n p.1 it' r)
  Run-weight _ it it' (in_background {n = n} {it₁ = it₁} s r) =
      omega (arith, Background-weight it it₁ s, Run-weight n it₁ it' r)

  -- However rounds of Next and steps of lookups interleave, an iterator that was just made makes no
  -- more than five steps for each value of its source, besides waiting, ending and being
  -- canceled.
  pub Run-bounded :
      (n : ℕ) (source : List (Result (Record A))) (from_providers : Bool)
      (cab : CachedAddrBook B C A) (it : FallbackIter B C A)
      → Run n (new_cache_fallback_iter source from_providers cab) it
      → n + weight it ≤ 5 * length source
  unfolding new_cache_fallback_iter
  Run-bounded n source from_providers cab it r =
      omega (arith, Run-weight n (new_cache_fallback_iter source from_providers cab) it r)
