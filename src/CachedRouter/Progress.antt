-- ===== src/CachedRouter/Progress.antt =====
-- What keeps the rounds and lookups of cacheFallbackIter (server_cached_router.go) from a panic.
use someguy.Prelude.{
  ℕ, ◌≡◌, ◌≢◌, ◌⊎◌, inl, inr, none, some, List, [], ◌∷◌, All, map, arith, Option-cases,
}
use someguy.Prelude.Bytes.{Bytes}
use someguy.Lru.{Lru}
use someguy.Multiaddr.{Multiaddr}
use someguy.AddrBook.{AddrBook}
use someguy.Records.{
  not_found, schema_peer, PeerRecord, Record, peer_record, bitswap_record, other_record, Result,
}
use someguy.Routers.Compose.{Fallible, ok, fails}
use someguy.CachedAddrBook.Types.{Limits, PeerState, CachedAddrBook}
use someguy.CachedRouter.{enrich, find_peers}
use someguy.CachedRouter.Fallback.{
  FallbackIter, panics, dispatch, take_peer, take_value, finish_lookup, found_record,
  read_all_results,
}

-- A value with a record, which has an ID if it is a peer record of the schema of peers.
abbrev pub IsReadable : {A : Type 0} → Result (Record A) → Type 0
IsReadable v = elim v.val [
  | none ↦ ⊥
  | some (peer_record r) ↦ (r.schema ≢ schema_peer) ⊎ (r.id ≢ none)
  | some (bitswap_record r) ↦ Unit
  | some (other_record s b) ↦ Unit
]

-- No result without an error lacks its record.
abbrev pub HasNoNil : {A : Type 0} → Fallible (List (Result (PeerRecord A))) → Type 0
HasNoNil (ok vs) = All (λ v. (v.err ≢ none) ⊎ (v.val ≢ none)) vs
HasNoNil (fails e) = Unit

module _ {B C A E : Type 0} ⦃m : Multiaddr A⦄ (limits : Limits) (book : AddrBook B A E)
    (cache : Lru C Bytes PeerState) where
  take_peer-goes :
      (now : ℕ) (pid : Bytes) (r : PeerRecord A) (it : FallbackIter B C A)
      → let p = take_peer limits book cache now pid r it in
        (p.0 ≢ panics) × (p.1.source ≡ it.source)
  unfolding take_peer dispatch
  take_peer-goes now pid r it = ground arith

  take_record-goes :
      (now : ℕ) (r : Record A) (v : Result (Record A)) (it : FallbackIter B C A)
      → v.val ≡ some r
      → IsReadable v
      → let p = take_value limits book cache now v it in (p.0 ≢ panics) × (p.1.source ≡ it.source)
  unfolding take_value
  take_record-goes now (peer_record r) v it e h = elim (Option-cases r.id) [
    | inl n ↦ ground arith
    | inr (pid, q) ↦ ground (arith, take_peer-goes now pid r it)
  ]
  take_record-goes now (bitswap_record r) v it e h = ground arith
  take_record-goes now (other_record s b) v it e h = ground arith

  pub take_value-goes :
      (now : ℕ) (v : Result (Record A)) (it : FallbackIter B C A)
      → IsReadable v
      → let p = take_value limits book cache now v it in (p.0 ≢ panics) × (p.1.source ≡ it.source)
  take_value-goes now v it h = elim (Option-cases v.val) [
    | inl n ↦ absurd (rw n at h)
    | inr (r, e) ↦ take_record-goes now r v it e h
  ]

  found_record-HasNoNil :
      (r : PeerRecord A) (vs : List (Result (PeerRecord A)))
      → All (λ v. (v.err ≢ none) ⊎ (v.val ≢ none)) vs
      → found_record r (ok vs) ≢ none
  unfolding found_record read_all_results
  found_record-HasNoNil r [] h = ground arith
  found_record-HasNoNil r (v ∷ vs) h = ground arith

  enrich-HasNoNil :
      (now : ℕ) (cab : CachedAddrBook B C A) (vs : List (Result (PeerRecord A)))
      → All (λ v. (v.err ≢ none) ⊎ (v.val ≢ none)) vs
      → All (λ v. (v.err ≢ none) ⊎ (v.val ≢ none)) (map (enrich limits book cache now cab) vs)
  unfolding enrich
  enrich-HasNoNil now cab [] h = tt
  enrich-HasNoNil now cab (v ∷ vs) h = (ground arith, enrich-HasNoNil now cab vs h.1)

  find_peers-HasNoNil :
      (now : ℕ) (pid : Bytes) (r : PeerRecord A) (answer : Fallible (List (Result (PeerRecord A))))
      (cab : CachedAddrBook B C A)
      → HasNoNil answer
      → found_record r (find_peers limits book cache now pid answer cab now cab).0 ≢ none
  unfolding find_peers found_record read_all_results
  find_peers-HasNoNil now pid r (ok vs) cab h = ground (
    arith,
    found_record-HasNoNil r (map (enrich limits book cache now cab) vs)
        (enrich-HasNoNil now cab vs h),
  )
  find_peers-HasNoNil now pid r (fails not_found) cab h = ground arith
  find_peers-HasNoNil now pid r (fails e) cab h = ground arith

  -- A lookup ends, whatever it finds and however full the channel is.
  pub lookup_ends :
      (now : ℕ) (pid : Bytes) (r : PeerRecord A) (answer : Fallible (List (Result (PeerRecord A))))
      (rest : List (PeerRecord A)) (it : FallbackIter B C A)
      → HasNoNil answer
      → (it' : FallbackIter B C A) × (finish_lookup limits book cache now answer pid r rest it
          ≡ some it')
        × (it'.source ≡ it.source)
  unfolding finish_lookup
  lookup_ends now pid r answer rest it h =
      elim (Option-cases (finish_lookup limits book cache now answer pid r rest it)) [
        | inl n ↦ absurd (ground (arith, find_peers-HasNoNil now pid r answer it.cab h))
        | inr (it', e) ↦ (it', e, ground arith)
      ]
