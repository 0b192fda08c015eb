-- ===== src/CachedRouter/Peers.antt =====
-- What FindPeers of cachedRouter serves (server_cached_router.go).
use someguy.Prelude.{
  ℕ, ◌≡◌, refl, ◌⊎◌, inl, inr, false, Option, none, some, List, [], ◌∷◌, All, map, is_empty, arith,
  Bool-cases, Option-cases,
}
use someguy.Prelude.Bytes.{Bytes}
use someguy.Lru.{Lru}
use someguy.Multiaddr.{Multiaddr}
use someguy.AddrBook.{AddrBook}
use someguy.Records.{GoError, PeerRecord, Result}
use someguy.Routers.Compose.{Fallible, ok, fails}
use someguy.CachedAddrBook.Types.{Limits, PeerState, CachedAddrBook}
use someguy.CachedAddrBook.Addrs.{get_cached_addrs}
use someguy.CachedRouter.{with_addrs_from_cache, enrich, find_uncached, find_peers}

module _ {B C A E : Type 0} ⦃m : Multiaddr A⦄ (limits : Limits) (book : AddrBook B A E)
    (cache : Lru C Bytes PeerState) (now : ℕ) (cab : CachedAddrBook B C A) where
  -- A record with an ID has an address, or the cache holds none for its peer.
  abbrev pub IsComplete : PeerRecord A → Type 0
  IsComplete r = elim r.id [
    | none ↦ Unit
    | some pid ↦ (is_empty r.addrs ≡ false) ⊎ (get_cached_addrs limits book now pid cab ≡ [])
  ]

  abbrev pub IsCompleteResult : Result (PeerRecord A) → Type 0
  IsCompleteResult v = elim v.err [
    | some e ↦ Unit
    | none ↦ elim v.val [ none ↦ Unit | some r ↦ IsComplete r ]
  ]

  empty_or : (l : List A) → (is_empty l ≡ false) ⊎ (l ≡ [])
  empty_or [] = inr refl
  empty_or (x ∷ l) = inl refl

  enrich_parts-IsCompleteResult :
      (val : Option (PeerRecord A)) (err : Option GoError)
      → IsCompleteResult (enrich limits book cache now cab (record { val = val; err = err }))
  unfolding enrich
  enrich_parts-IsCompleteResult none none = tt
  enrich_parts-IsCompleteResult none (some e) = tt
  enrich_parts-IsCompleteResult (some r) (some e) = tt
  enrich_parts-IsCompleteResult (some r) none = elim (Option-cases r.id) [
    | inl n ↦ ground arith
    | inr (pid, q) ↦ ground (arith, empty_or (get_cached_addrs limits book now pid cab))
  ]

  enrich-All :
      (vs : List (Result (PeerRecord A)))
      → All IsCompleteResult (map (enrich limits book cache now cab) vs)
  enrich-All [] = tt
  enrich-All (v ∷ vs) = (enrich_parts-IsCompleteResult v.val v.err, enrich-All vs)

  abbrev pub Serves : Fallible (List (Result (PeerRecord A))) → Type 0
  Serves (ok vs) = All IsCompleteResult vs
  Serves (fails e) = Unit

  find_uncached-Serves :
      (pid : Bytes) (answer : Fallible (List (Result (PeerRecord A))))
      → Serves (find_uncached limits book cache now pid answer cab).0
  unfolding find_uncached
  find_uncached-Serves pid (ok vs) = enrich-All vs
  find_uncached-Serves pid (fails e) = ground arith

  -- Whatever the router behind it answers, FindPeers serves no record of a peer without addresses while
  -- the cache holds addresses of that peer, when the results are read.
  pub find_peers-Serves :
      (before : ℕ) (cab_before : CachedAddrBook B C A) (pid : Bytes)
      (answer : Fallible (List (Result (PeerRecord A))))
      → Serves (find_peers limits book cache before pid answer cab_before now cab).0
  unfolding find_peers
  find_peers-Serves before cab_before pid answer = elim (Bool-cases (is_empty cached)) [
    | inl e ↦ rw (e, find_peers) (find_uncached-Serves pid answer)
    | inr e ↦ rw (e, find_peers) (inl e, tt)
  ]
    where
      cached : List A
      cached = (with_addrs_from_cache limits book cache before pid [] cab_before).0
