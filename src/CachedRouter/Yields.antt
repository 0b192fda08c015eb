-- ===== src/CachedRouter/Yields.antt =====
-- What cacheFallbackIter of server_cached_router.go yields.
use someguy.Prelude.{ℕ, ◌≡◌, ◌≢◌, ◌⊎◌, inl, inr, false, none, some, is_empty, arith, Option-cases}
use someguy.Prelude.Bytes.{Bytes}
use someguy.Lru.{Lru}
use someguy.Multiaddr.{Multiaddr}
use someguy.AddrBook.{AddrBook}
use someguy.Records.{
  schema_peer, PeerRecord, Record, peer_record, bitswap_record, other_record, Result,
}
use someguy.CachedAddrBook.Types.{Limits, PeerState}
use someguy.CachedRouter.Fallback.{
  FallbackIter, Verdict, yields, dispatch, take_peer, take_value, take_found, Round, from_source,
  no_lookups, from_lookup, context_done, timed_out,
}

-- A peer record of the schema of peers has an address.
abbrev pub IsReachable : {A : Type 0} → Result (Record A) → Type 0
IsReachable v = elim v.val [
  | none ↦ Unit
  | some (peer_record r) ↦ (is_empty r.addrs ≡ false) ⊎ (r.schema ≢ schema_peer)
  | some (bitswap_record r) ↦ Unit
  | some (other_record s b) ↦ Unit
]

module _ {B C A E : Type 0} ⦃m : Multiaddr A⦄ (limits : Limits) (book : AddrBook B A E)
    (cache : Lru C Bytes PeerState) where
  take_peer-IsReachable :
      (now : ℕ) (pid : Bytes) (r : PeerRecord A) (it : FallbackIter B C A)
      → let p = take_peer limits book cache now pid r it in p.0 ≡ yields → IsReachable p.1.current
  unfolding take_peer dispatch
  take_peer-IsReachable now pid r it h = ground arith

  take_found-IsReachable :
      (r : PeerRecord A) (it : FallbackIter B C A)
      → let p = take_found limits book cache r it in p.0 ≡ yields → IsReachable p.1.current
  unfolding take_found
  take_found-IsReachable r it h = ground arith

  take_record-IsReachable :
      (now : ℕ) (r : Record A) (v : Result (Record A)) (it : FallbackIter B C A)
      → v.val ≡ some r
      → let p = take_value limits book cache now v it in p.0 ≡ yields → IsReachable p.1.current
  unfolding take_value
  take_record-IsReachable now (peer_record r) v it e h = elim (Option-cases r.id) [
    | inl n ↦ ground arith
    | inr (pid, q) ↦ ground (arith, take_peer-IsReachable now pid r it)
  ]
  take_record-IsReachable now (bitswap_record r) v it e h = ground arith
  take_record-IsReachable now (other_record s b) v it e h = ground arith

  -- A round of Next that ends with a value yields no peer record without addresses: a provider that
  -- nobody can dial is left out.
  pub Round-IsReachable :
      (it : FallbackIter B C A) (p : Verdict × FallbackIter B C A)
      → Round limits book cache it p
      → p.0 ≡ yields
      → IsReachable p.1.current
  unfolding take_value
  Round-IsReachable it p (from_source _ now v rest e) h = elim (Option-cases v.val) [
    | inl n ↦ ground arith
    | inr (r, q) ↦ take_record-IsReachable now r v (record it { source = rest }) q h
  ]
  Round-IsReachable it p (no_lookups _ e o) h = absurd (ground arith)
  Round-IsReachable it p (from_lookup _ r rest e o q) h =
      take_found-IsReachable r (record it { results = rest }) h
  Round-IsReachable it p (context_done _ e o c) h = absurd (ground arith)
  Round-IsReachable it p (timed_out _ e o) h = absurd (ground arith)
