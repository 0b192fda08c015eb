-- ===== src/Server/Requests/Publish.antt =====
-- Publishing an IPNS record through a started server (server.go, server_routers.go).
use someguy.Prelude.{
  ◌≡◌, ◌↔◌, ◌⊎◌, inl, inr, refl, true, false, Option, none, List, [], ◌∷◌, All, arith,
}
use someguy.Prelude.Bytes.{codes, same}
use someguy.Prelude.Try.{success}
use someguy.Records.{GoError}
use someguy.Routers.Compose.{Child, given, sanitized_dht, Composed, no_router, only, parallel}
use someguy.Routers.Found.{put_ipns-none}
use someguy.Server.{ServerConfig}
use someguy.Server.Start.{Services, Handler, start}
use someguy.Server.Combined.{upstreams_of, upstreams, has_dht_child, asks_dht}
use someguy.Server.Serves.{start-Serves}
use someguy.Server.Requests.{Backends, ask_child, put_ipns_through, put_ipns, ask_put_ipns}

module _ {X : Type 0} (call : X → Option GoError) (dht : Option GoError) where
  abbrev Accepts : X → Type 0
  Accepts x = call x ≡ none

  abbrev ChildAccepts : Child X → Type 0
  ChildAccepts c = ask_child call (λ cached. dht) c ≡ none

  children-accept :
      (cs : List (Child X))
      → All ChildAccepts cs
        ↔ (All Accepts (upstreams_of cs) × ((has_dht_child cs ≡ false) ⊎ (dht ≡ none)))
  children-accept [] = (λ h. (tt, inl refl), λ h. tt)
  children-accept (given x ∷ cs) =
      let k = children-accept cs in
      (λ h. ((h.0, (k.0 h.1).0), (k.0 h.1).1), λ h. (h.0.0, k.1 (h.0.1, h.1)))
  children-accept (sanitized_dht cached ∷ cs) =
      let k = children-accept cs in
      (
        λ h. ((k.0 h.1).0, inr h.0),
        λ h. elim h.1 [ inl e ↦ absurd (ground (arith, e)) | inr e ↦ (e, k.1 (h.0, inr e)) ],
      )

  put_ipns_through-none :
      (c : Composed X)
      → (put_ipns_through call dht c ≡ none)
        ↔ (All Accepts (upstreams c) × ((asks_dht c ≡ false) ⊎ (dht ≡ none)))
  unfolding put_ipns_through
  put_ipns_through-none no_router = (λ h. (tt, inl refl), λ h. refl)
  put_ipns_through-none (only c) =
      let k = children-accept (c ∷ []) in (λ h. k.0 (h, tt), λ h. (k.1 h).0)
  put_ipns_through-none (parallel cs) =
      let k = put_ipns-none (ask_child call (λ cached. dht)) cs in
      let j = children-accept cs in (λ h. j.0 (k.0 h), λ h. k.1 (j.1 h))

-- PutIPNS of a started server succeeds just when every IPNS endpoint accepts the record, and the DHT too
-- unless it is disabled: a record that one of them refuses is an error for the client.
pub put_ipns_accepted :
    {A F N I K B C R J L : Type 0} (services : Services A F N I K B C) (cfg : ServerConfig)
    (handler : Handler A K B) (backends : Backends A K R J L)
    → start services cfg ≡ success handler
    → (put_ipns backends handler ≡ none) ↔ (
        All (λ x. ask_put_ipns backends x ≡ none) (upstreams handler.ipns.1)
        × ((same cfg.dht_type (codes "disabled") ≡ true) ⊎ (backends.dht_put_ipns ≡ none)))
unfolding put_ipns
put_ipns_accepted services cfg handler backends h =
    let s = start-Serves services cfg handler h in
    let k = put_ipns_through-none (ask_put_ipns backends) backends.dht_put_ipns handler.ipns.1 in
    (
      λ p.
          let (all, dht) = k.0 p in
          (
            all,
            elim dht [
              | inl e ↦ inl (ground (arith, s.dht_for_ipns, s.dht_type, e))
              | inr e ↦ inr e
            ],
          ),
      λ p. k.1 (
        p.0,
        elim p.1 [ inl e ↦ inl (ground (arith, s.dht_for_ipns, s.dht_type, e)) | inr e ↦ inr e ],
      ),
    )
