-- ===== src/Server/Requests/Resolve.antt =====
-- Resolving an IPNS name through a started server (server.go, server_routers.go).
use someguy.Prelude.{
  ℕ, ◌≡◌, ◌≢◌, ◌⊎◌, inl, inr, refl, Bool, true, false, Option, none, some, List, [], ◌∷◌, arith,
  Option-cases,
}
use someguy.Prelude.Bytes.{codes, same}
use someguy.Prelude.Try.{success}
use someguy.Routers.Compose.{ok, given, sanitized_dht, Composed, no_router, only, parallel}
use someguy.Routers.Ipns.{IpnsRecords, IpnsAnswer, Round, is_expired_ipns_record, sole_answer}
use someguy.Routers.Race.{FromLive, get_ipns-FromLive}
use someguy.Server.{ServerConfig}
use someguy.Server.Start.{Services, Handler, start, is_some}
use someguy.Server.Combined.{upstreams, asks_dht, IsCombined}
use someguy.Server.Serves.{start-Serves}
use someguy.Server.Requests.{Backends, ask_child, get_ipns_through, get_ipns, ask_get_ipns}

module _ {R : Type 0} (ipns : IpnsRecords R) where
  sole_answer-unexpired :
      (now : ℕ) (a : IpnsAnswer R) (v : Option R)
      → sole_answer ipns now a ≡ ok v
      → is_expired_ipns_record ipns now v ≡ false
  unfolding sole_answer
  sole_answer-unexpired now a v h = elim (Option-cases a.err) [
    | inl n ↦ ground arith
    | inr (e, q) ↦ ground arith
  ]

  -- A record that had not expired when it was checked.
  abbrev pub IsUnexpired : ℕ → List (Round R) → Option R → Type 0
  IsUnexpired now rounds v = FromLive ipns rounds v ⊎ (is_expired_ipns_record ipns now v ≡ false)

  module _ {X : Type 0} (call : X → IpnsAnswer R) (dht : IpnsAnswer R) where
    get_ipns_through-IsUnexpired :
        (has_book : Bool) (c : Composed X) (now : ℕ) (rounds : List (Round R)) (v : Option R)
        → IsCombined has_book c
        → upstreams c ≢ []
        → get_ipns_through ipns call dht c now rounds ≡ ok v
        → IsUnexpired now rounds v
    unfolding get_ipns_through
    get_ipns_through-IsUnexpired has_book no_router now rounds v s u h = absurd (u refl)
    get_ipns_through-IsUnexpired has_book (only (given x)) now rounds v s u h = absurd s
    get_ipns_through-IsUnexpired has_book (only (sanitized_dht cached)) now rounds v s u h =
        absurd (u refl)
    get_ipns_through-IsUnexpired has_book (parallel []) now rounds v s u h = absurd (u refl)
    get_ipns_through-IsUnexpired has_book (parallel (x ∷ [])) now rounds v s u h =
        inr (sole_answer-unexpired now (ask_child call (λ cached. dht) x) v h)
    get_ipns_through-IsUnexpired has_book (parallel (x ∷ y ∷ cs)) now rounds v s u h =
        inl (get_ipns-FromLive ipns (ask_child call (λ cached. dht)) x y cs now rounds v h)

    get_ipns_through-dht :
        (has_book : Bool) (c : Composed X) (now : ℕ) (rounds : List (Round R)) (r : R)
        → IsCombined has_book c
        → upstreams c ≡ []
        → asks_dht c ≡ true
        → dht ≡ record { val = some r; err = none }
        → get_ipns_through ipns call dht c now rounds ≡ ok (some r)
    unfolding get_ipns_through
    get_ipns_through-dht has_book no_router now rounds r s u a e = absurd (ground (arith, a))
    get_ipns_through-dht has_book (only (given x)) now rounds r s u a e = absurd s
    get_ipns_through-dht has_book (only (sanitized_dht cached)) now rounds r s u a e = rw e
    get_ipns_through-dht has_book (parallel cs) now rounds r s u a e = absurd (s.0 u)

module _ {A F N I K B C R J L : Type 0} (services : Services A F N I K B C) (cfg : ServerConfig)
    (handler : Handler A K B) (backends : Backends A K R J L) (ipns : IpnsRecords R) where
  -- A started server that has an IPNS endpoint serves no expired record, whatever the endpoints and
  -- the DHT answer and in whatever order: what it serves came without an error in a round in
  -- which it had not expired, or has not expired at the time of the only answer.
  pub get_ipns-IsUnexpired :
      (now : ℕ) (rounds : List (Round R)) (v : Option R)
      → start services cfg ≡ success handler
      → upstreams handler.ipns.1 ≢ []
      → get_ipns backends ipns handler now rounds ≡ ok v
      → IsUnexpired ipns now rounds v
  unfolding get_ipns
  get_ipns-IsUnexpired now rounds v h u e =
      get_ipns_through-IsUnexpired ipns (ask_get_ipns backends) backends.dht_get_ipns
        (is_some handler.address_book) handler.ipns.1 now rounds v
        (start-Serves services cfg handler h).ipns_combined u e

  -- Without an IPNS endpoint a started server that uses the DHT serves the record that the DHT returns,
  -- also when it has expired.
  pub get_ipns_unchecked :
      (now : ℕ) (rounds : List (Round R)) (r : R)
      → start services cfg ≡ success handler
      → upstreams handler.ipns.1 ≡ []
      → same cfg.dht_type (codes "disabled") ≡ false
      → backends.dht_get_ipns ≡ record { val = some r; err = none }
      → get_ipns backends ipns handler now rounds ≡ ok (some r)
  unfolding get_ipns
  get_ipns_unchecked now rounds r h u d e =
      let s = start-Serves services cfg handler h in
      get_ipns_through-dht ipns (ask_get_ipns backends) backends.dht_get_ipns
        (is_some handler.address_book) handler.ipns.1 now rounds r s.ipns_combined u
        (ground (arith, s.dht_for_ipns, s.dht_type, d)) e
