-- ===== src/Routers/Libp2p.antt =====
-- server_routers.go: libp2pRouter and peerChanIter, and server_dht.go: getDHT.
--
-- The DHT is a parameter: what its calls return. The addresses of a peer are what the host's
-- peerstore returns for it.
use someguy.Prelude.{
  ℕ, zero, suc, ◌<◌, ap, arith, ◌≡◌, refl, Bool, true, false, Option, none, some, List, [], ◌∷◌,
  map, length,
}
use someguy.Prelude.Bytes.{Bytes, codes}
use someguy.Records.{failure, schema_peer, PeerRecord, Record, peer_record, GoError}
use someguy.Routers.Compose.{Fallible, ok, fails}

-- peer.AddrInfo
pub record AddrInfo (A : Type 0) : Type 0 where
  pub id : Bytes
  pub addrs : List A

-- The types of DHT that GetClosestPeers tells apart, each with what the call on it returns.
-- A bundledDHT asks its full-routing-table client when that is ready, and the standard one before.
pub data Dht : Type 0 where
  dual : (wan : Option (Fallible (List Bytes))) → Dht
  full_rt : Fallible (List Bytes) → Dht
  ipfs_dht : Fallible (List Bytes) → Dht
  bundled : (ready : Bool) → (full standard : Fallible (List Bytes)) → Dht
  other_routing : Dht

unfoldable pub get_dht : Bool → Fallible (List Bytes) → Fallible (List Bytes) → Dht
get_dht ready full standard = elim ready [ true ↦ full_rt full | false ↦ ipfs_dht standard ]

unfoldable pub closest : Dht → Fallible (List Bytes)
unfolding get_dht
closest (dual none) =
    fails (failure (codes "GetClosestPeers not supported: WAN DHT is not available"))
closest (dual (some r)) = r
closest (full_rt r) = r
closest (ipfs_dht r) = r
closest (bundled ready full standard) = elim (get_dht ready full standard) [
  | full_rt r ↦ r
  | ipfs_dht r ↦ r
  | d ↦ fails (failure (codes "bundledDHT returned unexpected DHT type"))
]
closest other_routing = fails (failure (codes "cannot call GetClosestPeers on DHT implementation"))

-- peerChanIter over what the channel delivers until it is closed.
pub record PeerChanIter (A : Type 0) : Type 0 where
  pub ch : List (AddrInfo A)
  pub next : Option (AddrInfo A)
  pub canceled : Bool

module _ {A : Type 0} where
  -- The record of a peer with its addresses, in all three methods.
  unfoldable pub peer_record_of : AddrInfo A → PeerRecord A
  peer_record_of info = record {
    schema = schema_peer;
    id = some info.id;
    addrs = info.addrs;
    protocols = [];
  }

  unfoldable pub find_peers : Fallible (AddrInfo A) → Fallible (List (PeerRecord A))
  unfolding peer_record_of
  find_peers (fails e) = fails e
  find_peers (ok info) = ok (peer_record_of info ∷ [])

  -- none is cid.Undef.
  unfoldable pub get_closest_peers :
      (Bytes → List A) → Option (Bytes → Dht) → Bytes → Fallible (List (PeerRecord A))
  unfolding closest peer_record_of
  get_closest_peers peerstore none key = fails (failure (codes "GetClosestPeers: key is undefined"))
  get_closest_peers peerstore (some dht) key = elim (closest (dht key)) [
    | fails e ↦ fails e
    | ok peers ↦ ok (map (λ p. peer_record_of (record { id = p; addrs = peerstore p })) peers)
  ]

  abbrev received : List (AddrInfo A) → PeerChanIter A → Bool × PeerChanIter A
  received [] it = (false, record it { next = none })
  received (info ∷ rest) it = (true, record it { ch = rest; next = some info })

  unfoldable pub next : PeerChanIter A → Bool × PeerChanIter A
  next it = received it.ch it

  unfoldable pub val : PeerChanIter A → Option (Record A)
  unfolding peer_record_of
  val it = elim it.next [ none ↦ none | some info ↦ some (peer_record (peer_record_of info)) ]

  unfoldable pub close : PeerChanIter A → PeerChanIter A
  close it = record it { canceled = true }

  -- What a caller reads that calls Next until it returns false, with a bound on the calls.
  read_all : ℕ → PeerChanIter A → List (Option (Record A))
  unfolding next val
  read_all zero it = []
  read_all (suc n) it =
      let (more, it') = next it in
      let rest = read_all n it' in elim more [ true ↦ val it' ∷ rest | false ↦ [] ]

  read_from :
      (n : ℕ) (infos : List (AddrInfo A)) (last : Option (AddrInfo A)) (canceled : Bool)
      → length infos < n
      → read_all n (record { ch = infos; next = last; canceled = canceled })
        ≡ map (λ info. some (peer_record (peer_record_of info))) infos
  unfolding read_all
  read_from zero infos last canceled h = absurd (omega arith)
  read_from (suc n) [] last canceled h = refl
  read_from (suc n) (info ∷ infos) last canceled h =
      ap (λ l. some (peer_record (peer_record_of info)) ∷ l)
        (read_from n infos (some info) canceled (omega arith))

  -- The iterator of FindProviders gives each peer that the DHT's channel delivers, once and in
  -- order, as a record with all its addresses, and then ends: one call of Next more than there
  -- are peers suffices, and further calls give nothing.
  read_all_lem :
      (n : ℕ) (it : PeerChanIter A)
      → length it.ch < n
      → read_all n it ≡ map (λ info. some (peer_record (peer_record_of info))) it.ch
  read_all_lem n it h = read_from n it.ch it.next it.canceled h

-- GetIPNS and PutIPNS of libp2pRouter: the value of the DHT for the routing key of a name, and the
-- codec of boxo's ipns. R: IPNS records.
unfoldable pub get_ipns :
    {R : Type 0}
    → (get_value : Bytes → Fallible Bytes) (unmarshal_record : Bytes → Fallible R) → Bytes
    → Fallible R
get_ipns get_value unmarshal_record routing_key = elim (get_value routing_key) [
  | fails e ↦ fails e
  | ok raw ↦ unmarshal_record raw
]

unfoldable pub put_ipns :
    {R : Type 0}
    → (put_value : Bytes → Bytes → Option GoError) (marshal_record : R → Fallible Bytes) → Bytes
    → R
    → Option GoError
put_ipns put_value marshal_record routing_key rec = elim (marshal_record rec) [
  | fails e ↦ some e
  | ok raw ↦ put_value routing_key raw
]
