-- ===== src/CachedRouter/Reach.antt =====
-- The states that an iterator of server_cached_router.go can be in, with the lookups of others beside
-- its own: rounds of Next, steps of background lookups, and other requests that take and return slots.
use someguy.Prelude.{ℕ, zero, suc, ◌≤◌, ◌<◌, ◌≡◌, ◌≢◌, refl, ◌⊎◌, inl, inr, Bool, none, List, arith}
use someguy.Prelude.Bytes.{Bytes}
use someguy.Lru.{Lru}
use someguy.Multiaddr.{Multiaddr}
use someguy.AddrBook.{AddrBook}
use someguy.Records.{Record, Result}
use someguy.CachedAddrBook.Types.{Limits, PeerState, CachedAddrBook}
use someguy.CachedAddrBook.Probing.{release_find_peer_slot}
use someguy.CachedRouter.Fallback.{
  FallbackIter, Verdict, Round, Background, new_cache_fallback_iter,
}
use someguy.CachedRouter.Slots.{IsHeld, Round-IsHeld, Background-IsHeld, release_never_blocks}

module _ {B C A E : Type 0} ⦃m : Multiaddr A⦄ (limits : Limits) (book : AddrBook B A E)
    (cache : Lru C Bytes PeerState) where
  -- The number says how many slots others hold.
  pub data Reachable : ℕ → FallbackIter B C A → Type 0 where
    begins :
        (source : List (Result (Record A))) (from_providers : Bool) (cab : CachedAddrBook B C A)
        → cab.slots_held ≤ cab.find_peer_slots
        → Reachable cab.slots_held (new_cache_fallback_iter source from_providers cab)
    next :
        {others : ℕ} {it : FallbackIter B C A} {p : Verdict × FallbackIter B C A}
        → Reachable others it
        → Round limits book cache it p
        → Reachable others p.1
    in_background :
        {others : ℕ} {it it' : FallbackIter B C A}
        → Reachable others it
        → Background limits book cache it it'
        → Reachable others it'
    other_acquires :
        {others : ℕ} {it : FallbackIter B C A}
        → Reachable others it
        → it.cab.slots_held < it.cab.find_peer_slots
        → Reachable
            (suc others)
            (record it { cab = record it.cab { slots_held = suc it.cab.slots_held } })
    other_releases :
        {others held : ℕ} {it : FallbackIter B C A}
        → Reachable (suc others) it
        → it.cab.slots_held ≡ suc held
        → Reachable others (record it { cab = record it.cab { slots_held = held } })

  pub Reachable-IsHeld :
      (others : ℕ) (it : FallbackIter B C A) → Reachable others it → IsHeld others it
  unfolding new_cache_fallback_iter
  Reachable-IsHeld _ _ (begins source from_providers cab h) = record {
    held = omega arith;
    within = h;
  }
  Reachable-IsHeld others _ (next {it = it} {p = p} r s) =
      Round-IsHeld limits book cache others it p s (Reachable-IsHeld others it r)
  Reachable-IsHeld others it' (in_background {it = it} r s) =
      Background-IsHeld limits book cache others it it' s (Reachable-IsHeld others it r)
  Reachable-IsHeld _ _ (other_acquires {others = others} {it = it} r h) =
      let k = Reachable-IsHeld others it r in
      record { held = omega (arith, k.held); within = omega (arith, h) }
  Reachable-IsHeld others _ (other_releases {it = it} r e) =
      let k = Reachable-IsHeld (suc others) it r in
      record { held = omega (arith, k.held, e); within = omega (arith, k.within, e) }

  -- In every state that an iterator can reach, however its rounds, its lookups and other
  -- requests interleave and whenever it is canceled, the slots held are those of others and
  -- one for each of its lookups that has not given its slot back, never more than the cap; and
  -- a lookup that has a slot to give back can give it back without blocking. The iterator
  -- begins with no more slots held than there are.
  pub Reachable-IsSound :
      (others : ℕ) (it : FallbackIter B C A)
      → Reachable others it
      → IsHeld others it × ((it.sent ≡ 0) ⊎ (release_find_peer_slot it.cab ≢ none))
  Reachable-IsSound others it r =
      let h = Reachable-IsHeld others it r in (h, releases it.sent refl h)
    where
      releases :
          (n : ℕ)
          → it.sent ≡ n
          → IsHeld others it
          → (it.sent ≡ 0) ⊎ (release_find_peer_slot it.cab ≢ none)
      releases zero e h = inl e
      releases (suc n) e h =
          inr (release_never_blocks limits book cache others it h (omega (arith, e)))
