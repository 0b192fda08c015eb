-- ===== src/CachedRouter/Lost.antt =====
-- Results of background lookups when Next of cacheFallbackIter ends.
use someguy.Prelude.{ℕ, suc, ◌≡◌, refl, false, some, List, [], ◌∷◌, arith}
use someguy.Prelude.Bytes.{Bytes}
use someguy.Lru.{Lru}
use someguy.Multiaddr.{Multiaddr}
use someguy.AddrBook.{AddrBook}
use someguy.Records.{PeerRecord, Result}
use someguy.Routers.Compose.{Fallible}
use someguy.CachedAddrBook.Types.{Limits, PeerState, CachedAddrBook}
use someguy.CachedAddrBook.Probing.{release_find_peer_slot}
use someguy.CachedRouter.{find_peers}
use someguy.CachedRouter.Fallback.{
  FallbackIter, ends, Round, no_lookups, found_record, finish_lookup, Background, finishes,
  releases, ends_lookup,
}
use someguy.CachedRouter.Slots.{find_peers-slots}

module _ {B C A E : Type 0} ⦃m : Multiaddr A⦄ (limits : Limits) (book : AddrBook B A E)
    (cache : Lru C Bytes PeerState) where
  -- Steps of the lookups, one after the other.
  pub data Steps : FallbackIter B C A → FallbackIter B C A → Type 0 where
    stays : (it : FallbackIter B C A) → Steps it it
    steps :
        (it it' it'' : FallbackIter B C A)
        → Background limits book cache it it'
        → Steps it' it''
        → Steps it it''

  -- Of an iterator that was not canceled, whose source is used up and which has no result
  -- waiting, the last running lookup may end, with its result sent, before Next looks whether
  -- one is running: then the round ends the iterator although the result waits in the channel.
  pub result_is_lost :
      (it : FallbackIter B C A) (now k : ℕ) (pid : Bytes) (r q : PeerRecord A)
      (answer : Fallible (List (Result (PeerRecord A))))
      → it.source ≡ []
      → it.running ≡ r ∷ []
      → it.sent ≡ 0
      → it.released ≡ 0
      → it.results ≡ []
      → it.canceled ≡ false
      → r.id ≡ some pid
      → it.cab.slots_held ≡ suc k
      → found_record r (find_peers limits book cache now pid answer it.cab now it.cab).0 ≡ some q
      → (it' : FallbackIter B C A) × Steps it it'
        × Round limits book cache it' (ends, it')
        × (it'.results ≡ q ∷ [])
  unfolding finish_lookup release_find_peer_slot
  result_is_lost it now k pid r q answer src run sent rel res can i held found = (
    it3,
    steps it it1 it3 (finishes it it1 now answer pid [] [] r run i sends) (
        steps it1 it2 it3 (releases it1 0 cab2 refl frees)
          (steps it2 it3 it3 (ends_lookup it2 0 refl) (stays it3))),
    no_lookups it3 src refl,
    refl,
  )
    where
      cab1 : CachedAddrBook B C A
      cab1 = (find_peers limits book cache now pid answer it.cab now it.cab).1

      cab2 : CachedAddrBook B C A
      cab2 = record cab1 { slots_held = k }

      it1 : FallbackIter B C A
      it1 = record it { cab = cab1; running = []; sent = 1; released = 0; results = q ∷ [] }

      it2 : FallbackIter B C A
      it2 = record it1 { sent = 0; released = 1; cab = cab2 }

      it3 : FallbackIter B C A
      it3 = record it2 { released = 0 }

      sends : finish_lookup limits book cache now answer pid r [] it ≡ some it1
      sends = ground arith

      frees : release_find_peer_slot cab1 ≡ some cab2
      frees = ground (arith, find_peers-slots limits book cache now pid answer it.cab)
