-- ===== src/Server/Requests/Lookup.antt =====
-- Looking for providers, peers and closest peers through a started server (server.go,
-- server_routers.go).
use mathlib.Core.List.{Mem, mem-cons_self, mem-cons_of_mem}
use someguy.Prelude.{
  ℕ, ◌≡◌, ◌⊎◌, inl, inr, refl, Bool, true, false, none, List, [], ◌∷◌, arith, All, ◌∙◌, subst,
  Option-cases,
}
use someguy.Prelude.Bytes.{codes, same}
use someguy.Prelude.Try.{success}
use someguy.Records.{not_found, not_supported}
use someguy.Routers.Compose.{
  Fallible, ok, fails, Merged, no_results, Child, given, sanitized_dht, Composed, no_router, only,
  parallel,
}
use someguy.Routers.Found.{Offers, find-Offers}
use someguy.Routers.Ipns.{IpnsRecords, Round}
use someguy.Server.{ServerConfig}
use someguy.Server.Start.{Services, Handler, start, is_some}
use someguy.Server.Combined.{upstreams, has_dht_child, asks_dht, UsesBook, IsCombined}
use someguy.Server.Serves.{ClosestRouter, start-Serves}
use someguy.Server.Requests.{
  Backends, ask_child, alone, mapped, find_through, find_providers, find_peers, get_ipns, put_ipns,
  get_closest_peers, ask_providers,
}

dht-Mem :
    {X : Type 0} (has_book : Bool) (cs : List (Child X))
    → All (UsesBook has_book) cs
    → has_dht_child cs ≡ true
    → Mem (sanitized_dht has_book) cs
dht-Mem has_book [] u h = absurd (ground (arith, h))
dht-Mem has_book (given x ∷ cs) u h = mem-cons_of_mem (given x) (dht-Mem has_book cs u.1 h)
dht-Mem has_book (sanitized_dht cached ∷ cs) u h = rw u.0 mem-cons_self

module _ {X I : Type 0} (call : X → Fallible I) (dht : Bool → Fallible I) (has_book : Bool) where
  find_through-Offers :
      (c : Composed X) (it : I)
      → IsCombined has_book c
      → asks_dht c ≡ true
      → dht has_book ≡ ok it
      → Offers (find_through call dht c) it
  unfolding find_through
  find_through-Offers no_router it s a e = absurd (ground (arith, a))
  find_through-Offers (only (given x)) it s a e = absurd s
  find_through-Offers (only (sanitized_dht cached)) it s a e = rw (s, e) mem-cons_self
  find_through-Offers (parallel cs) it s a e =
      find-Offers (ask_child call dht) cs (sanitized_dht has_book) it (dht-Mem has_book cs s.1 a) e

Offers-ok :
    {I : Type 0} (resolves : Bool) (x : Fallible (Merged I)) (it : I)
    → Offers x it
    → (m : Merged I) × (mapped resolves x ≡ ok (resolves, m)) × Offers (ok m) it
Offers-ok resolves (ok m) it o = (m, refl, o)
Offers-ok resolves (fails e) it o = absurd o

combined_nothing :
    {X : Type 0} (has_book : Bool) (c : Composed X)
    → IsCombined has_book c
    → upstreams c ≡ []
    → asks_dht c ≡ false
    → c ≡ no_router
combined_nothing has_book no_router s u a = refl
combined_nothing has_book (only (given x)) s u a = absurd s
combined_nothing has_book (only (sanitized_dht cached)) s u a = absurd (ground (arith, a))
combined_nothing has_book (parallel cs) s u a = absurd (s.0 u)

module _ {A F N I K B C R J L : Type 0} (services : Services A F N I K B C) (cfg : ServerConfig)
    (handler : Handler A K B) (backends : Backends A K R J L) where
  -- FindProviders of a started server that uses the DHT returns no error, whichever endpoints and gateways
  -- fail, and the DHT's providers are among those that it serves, through the cached address
  -- book if there is one.
  pub find_providers-Offers :
      start services cfg ≡ success handler
      → same cfg.dht_type (codes "disabled") ≡ false
      → (m : Merged J) × (find_providers backends handler ≡ ok (handler.providers.0, m))
        × Offers (ok m) (backends.dht_find_providers (is_some handler.address_book))
  unfolding find_providers
  find_providers-Offers h d =
      let s = start-Serves services cfg handler h in
      let it = backends.dht_find_providers (is_some handler.address_book) in
      Offers-ok handler.providers.0 _ it (
        find_through-Offers (ask_providers backends)
          (λ cached. ok (backends.dht_find_providers cached)) (is_some handler.address_book)
          handler.providers.1 it s.providers_combined
          (ground (arith, s.dht_for_providers, s.dht_type, d)) refl)

  -- GetClosestPeers of a started server is not supported if the DHT is disabled, and otherwise answers
  -- what the DHT alone answers, error or not, through the cached address book if there is one.
  get_closest_peers_lem :
      start services cfg ≡ success handler
      → ((same cfg.dht_type (codes "disabled") ≡ true)
          × (get_closest_peers backends handler ≡ fails not_supported))
        ⊎ ((resolves : Bool) × (same cfg.dht_type (codes "disabled") ≡ false)
            × (get_closest_peers backends handler
                ≡ mapped resolves
                    (alone (backends.dht_get_closest_peers (is_some handler.address_book)))))
  unfolding get_closest_peers
  get_closest_peers_lem h =
      let s = start-Serves services cfg handler h in
      elim (Option-cases handler.dht) [
        | inl n ↦ inl (ground (arith, s.closest_peers, s.dht_type, n), rw n)
        | inr ((resolves, c), q) ↦
            let is_dht : c ≡ only (sanitized_dht (is_some handler.address_book)) =
              subst (ClosestRouter (is_some handler.address_book)) q s.closest_router in
            inr (resolves, ground (arith, s.closest_peers, s.dht_type, q), rw (q, is_dht))
      ]

  -- A server that started with the DHT disabled and without endpoints and gateways answers every request:
  -- no providers, no peers, no record, closest peers unsupported, and success for a record
  -- that is published nowhere.
  answers_nothing :
      (ipns : IpnsRecords R) (now : ℕ) (rounds : List (Round R))
      → start services cfg ≡ success handler
      → same cfg.dht_type (codes "disabled") ≡ true
      → upstreams handler.providers.1 ≡ []
      → upstreams handler.peers.1 ≡ []
      → upstreams handler.ipns.1 ≡ []
      → (find_providers backends handler ≡ ok (handler.providers.0, no_results))
        × (find_peers backends handler ≡ ok (handler.peers.0, no_results))
        × (get_ipns backends ipns handler now rounds ≡ fails not_found)
        × (put_ipns backends handler ≡ none)
  unfolding find_providers find_peers get_ipns put_ipns
  answers_nothing ipns now rounds h d no_providers no_peers no_ipns =
      let s = start-Serves services cfg handler h in
      let has_book = is_some handler.address_book in
      let unused : s.uses_dht ≡ false = ground (arith, s.dht_type, d) in
      let p =
        combined_nothing has_book handler.providers.1 s.providers_combined no_providers
          (s.dht_for_providers ∙ unused) in
      let q =
        combined_nothing has_book handler.peers.1 s.peers_combined no_peers
          (s.dht_for_peers ∙ unused) in
      let i =
        combined_nothing has_book handler.ipns.1 s.ipns_combined no_ipns
          (s.dht_for_ipns ∙ unused) in
      (rw p, rw q, rw i, rw i)
