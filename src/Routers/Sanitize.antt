-- ===== src/Routers/Sanitize.antt =====
-- server_routers.go: sanitizeRouter, on the results of the router that it wraps.
use someguy.Prelude.{◌≡◌, ◌⊎◌, false, Option, none, some, List, [], ◌∷◌, map, All, arith}
use someguy.Multiaddr.{Multiaddr}
use someguy.Addrs.{filter_private_multiaddr}
use someguy.Addrs.Order.{filter_private_multiaddr_contents}
use someguy.Records.{
  GoError, Schema, schema_peer, schema_bitswap, schema_other, PeerRecord, Record, peer_record,
  bitswap_record, other_record, get_schema, Result, result_addrs, peer_addrs,
}

module _ {A : Type 0} ⦃m : Multiaddr A⦄ where
  abbrev sanitize_record : Schema → Record A → Record A
  sanitize_record schema_peer (peer_record r) =
      peer_record (record r { addrs = filter_private_multiaddr r.addrs })
  sanitize_record schema_bitswap (bitswap_record r) =
      bitswap_record (record r { addrs = filter_private_multiaddr r.addrs })
  sanitize_record s r = r

  unfoldable pub sanitize_result : Result (Record A) → Result (Record A)
  sanitize_result v = elim v.err [
    | some e ↦ v
    | none ↦ elim v.val [
      | none ↦ v
      | some r ↦ record v { val = some (sanitize_record (get_schema r) r) }
    ]
  ]

  unfoldable pub sanitize_peer_result : Result (PeerRecord A) → Result (PeerRecord A)
  sanitize_peer_result v = elim v.err [
    | some e ↦ v
    | none ↦ elim v.val [
      | none ↦ v
      | some r ↦ record v { val = some (record r { addrs = filter_private_multiaddr r.addrs }) }
    ]
  ]

  -- FindProviders, then FindPeers and GetClosestPeers, on the results that the iterator gives.
  unfoldable pub sanitize_providers : List (Result (Record A)) → List (Result (Record A))
  unfolding sanitize_result
  sanitize_providers vs = map sanitize_result vs

  unfoldable pub sanitize_peers : List (Result (PeerRecord A)) → List (Result (PeerRecord A))
  unfolding sanitize_peer_result
  sanitize_peers vs = map sanitize_peer_result vs

  -- A result that is an error, or a record whose schema is that of its type.
  abbrev pub IsProper : Result (Record A) → Type 0
  IsProper v = elim v.val [
    | none ↦ Unit
    | some (peer_record r) ↦ (v.err ≡ none) × (r.schema ≡ schema_peer)
    | some (bitswap_record r) ↦ (v.err ≡ none) × (r.schema ≡ schema_bitswap)
    | some (other_record s b) ↦ Unit
  ]

  filtered-public : (xs : List A) → All (λ x. m.is_private x ≡ false) (filter_private_multiaddr xs)
  filtered-public xs = (filter_private_multiaddr_contents xs).0

  sanitize_parts-public :
      (val : Option (Record A)) (err : Option GoError)
      → IsProper (record { val = val; err = err })
      → All
          (λ x. m.is_private x ≡ false)
          (result_addrs (sanitize_result (record { val = val; err = err })))
  unfolding sanitize_result
  sanitize_parts-public none none h = tt
  sanitize_parts-public none (some e) h = tt
  sanitize_parts-public (some (peer_record r)) none h = rw h.1 (filtered-public r.addrs)
  sanitize_parts-public (some (bitswap_record r)) none h = rw h.1 (filtered-public r.addrs)
  sanitize_parts-public (some (other_record schema_peer b)) none h = tt
  sanitize_parts-public (some (other_record schema_bitswap b)) none h = tt
  sanitize_parts-public (some (other_record schema_other b)) none h = tt
  sanitize_parts-public (some (peer_record r)) (some e) h = absurd (ground (arith, h.0))
  sanitize_parts-public (some (bitswap_record r)) (some e) h = absurd (ground (arith, h.0))
  sanitize_parts-public (some (other_record s b)) (some e) h = tt

  -- No result of FindProviders behind a sanitizeRouter has a private address, if a result that is
  -- a peer or bitswap record comes without an error and has the schema of its type.
  pub sanitize_providers-public :
      (vs : List (Result (Record A)))
      → All IsProper vs
      → All (λ v. All (λ x. m.is_private x ≡ false) (result_addrs v)) (sanitize_providers vs)
  unfolding sanitize_providers
  sanitize_providers-public [] h = tt
  sanitize_providers-public (v ∷ vs) h =
      (sanitize_parts-public v.val v.err h.0, sanitize_providers-public vs h.1)

  sanitize_peer_parts-public :
      (val : Option (PeerRecord A)) (err : Option GoError)
      → (val ≡ none) ⊎ (err ≡ none)
      → All
          (λ x. m.is_private x ≡ false)
          (peer_addrs (sanitize_peer_result (record { val = val; err = err })))
  unfolding sanitize_peer_result
  sanitize_peer_parts-public none none h = tt
  sanitize_peer_parts-public none (some e) h = tt
  sanitize_peer_parts-public (some r) none h = filtered-public r.addrs
  sanitize_peer_parts-public (some r) (some e) h = absurd (ground arith)

  -- The same for the results of FindPeers and GetClosestPeers, if none has both a record and an error.
  sanitize_peers-public :
      (vs : List (Result (PeerRecord A)))
      → All (λ v. (v.val ≡ none) ⊎ (v.err ≡ none)) vs
      → All (λ v. All (λ x. m.is_private x ≡ false) (peer_addrs v)) (sanitize_peers vs)
  unfolding sanitize_peers
  sanitize_peers-public [] h = tt
  sanitize_peers-public (v ∷ vs) h =
      (sanitize_peer_parts-public v.val v.err h.0, sanitize_peers-public vs h.1)
