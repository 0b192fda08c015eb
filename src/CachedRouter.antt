-- ===== src/CachedRouter.antt =====
-- server_cached_router.go: cachedRouter over what the router that it wraps answers.
pub mod Fallback
pub mod Yields
pub mod Slots
pub mod Reach
pub mod Named
pub mod Progress
pub mod Drains
pub mod Ends
pub mod Lost
pub mod Peers
use someguy.Prelude.{
  ℕ, Bool, true, false, not, Option, none, some, List, [], ◌∷◌, map, is_empty, if◌then◌else◌,
}
use someguy.Prelude.Bytes.{Bytes}
use someguy.Lru.{Lru}
use someguy.Multiaddr.{Multiaddr}
use someguy.AddrBook.{AddrBook}
use someguy.Records.{
  GoError, not_found, failure, schema_peer, PeerRecord, Record, peer_record, Result,
}
use someguy.Routers.Compose.{Fallible, ok, fails}
use someguy.CachedAddrBook.Types.{Limits, PeerState, CachedAddrBook}
use someguy.CachedAddrBook.Probing.{record_failed_connection}
use someguy.CachedAddrBook.Addrs.{get_cached_addrs}

-- The label of peer_addr_lookups.
pub data CacheUse : Type 0 where
  unused hit miss : CacheUse

module _ {B C A E : Type 0} ⦃m : Multiaddr A⦄ (limits : Limits) (book : AddrBook B A E)
    (cache : Lru C Bytes PeerState) where
  unfoldable pub with_addrs_from_cache :
      ℕ → Bytes → List A → CachedAddrBook B C A → List A × CacheUse
  unfolding get_cached_addrs
  with_addrs_from_cache now pid addrs cab =
      if not (is_empty addrs)
      then (addrs, unused)
      else let cached = get_cached_addrs limits book now pid cab in
        if is_empty cached then ([], miss) else (cached, hit)

  -- What FindPeers makes of a result that came back without addresses.
  unfoldable pub enrich : ℕ → CachedAddrBook B C A → Result (PeerRecord A) → Result (PeerRecord A)
  unfolding get_cached_addrs
  enrich now cab v = elim v.err [
    | some e ↦ v
    | none ↦ elim v.val [
      | none ↦ v
      | some r ↦ elim r.id [
        | none ↦ v
        | some pid ↦
            if is_empty r.addrs
            then record v {
              val = some (record r { addrs = get_cached_addrs limits book now pid cab });
            }
            else v
      ]
    ]
  ]

  -- FindPeers after a miss; `answer` is what the wrapped router returns.
  unfoldable pub find_uncached :
      ℕ
      → Bytes
      → Fallible (List (Result (PeerRecord A)))
      → CachedAddrBook B C A
      → Fallible (List (Result (PeerRecord A))) × CachedAddrBook B C A
  unfolding enrich
  find_uncached now pid (ok vs) cab = (ok (map (enrich now cab) vs), cab)
  find_uncached now pid (fails not_found) cab =
      (fails not_found, record_failed_connection limits book cache now pid cab)
  find_uncached now pid (fails e) cab = (fails e, cab)

  -- FindPeers at the time `now`, when the book is `cab`. After a miss the wrapped router is asked, and
  -- `later` and `cab'` are the time and the book when it has failed or its results are read.
  unfoldable pub find_peers :
      ℕ
      → Bytes
      → Fallible (List (Result (PeerRecord A)))
      → CachedAddrBook B C A
      → ℕ
      → CachedAddrBook B C A
      → Fallible (List (Result (PeerRecord A))) × CachedAddrBook B C A
  unfolding with_addrs_from_cache find_uncached
  find_peers now pid answer cab later cab' =
      let cached = (with_addrs_from_cache now pid [] cab).0 in
      if is_empty cached
      then find_uncached later pid answer cab'
      else let rec : PeerRecord A = record {
        schema = schema_peer;
        id = some pid;
        addrs = cached;
        protocols = [];
      } in
        (ok (record { val = some rec; err = none } ∷ []), cab)
