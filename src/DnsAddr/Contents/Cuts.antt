-- ===== src/DnsAddr/Contents/Cuts.antt =====
-- What a record's expansions (dnsaddr.go: expand) have used up, and do not get back.
use someguy.Prelude.{
  ℕ, zero, suc, ◌≡◌, ◌⊎◌, inl, inr, true, not, ◌||◌, List, [], ◌∷◌, arith, Bool-cases, ◌==◌,
}
use someguy.Prelude.Bytes.{Bytes}
use someguy.Multiaddr.{Multiaddr}
use someguy.Lru.{Lru}
use someguy.Context.{Ctx, ctx_err}
use someguy.DnsAddr.Host.{split_peer_id, resolvable_dns_addr}
use someguy.DnsAddr.Types.{CacheEntry, Dns, State}
use someguy.DnsAddr.Lookup.{spend, lookup}
use someguy.DnsAddr.Expand.{Gathered, take_result, take_results, expand}

-- No room is left in the record, no lookup is left, or the request has ended.
abbrev pub Exhausted : {C : Type 0} → Ctx → State C → Type 0
Exhausted ctx s = (s.room ≡ 0) ⊎ ((s.lookups ≡ 0) ⊎ (ctx_err ctx s.world.now ≡ true))

module _ {A C : Type 0} ⦃m : Multiaddr A⦄ (cache : Lru C Bytes (CacheEntry A)) (dns : Dns A)
    (ctx : Ctx) where
  pub lookup-Exhausted :
      (addr : A) (s : State C) → Exhausted ctx s → Exhausted ctx (lookup cache dns ctx addr s).1
  unfolding lookup spend
  lookup-Exhausted addr s h = ground arith

  module _ (pid : Bytes) where
    abbrev StaysExhausted : (A → State C → Gathered A C) → Type 0
    StaysExhausted nested =
        (a : A) (t : State C) → Exhausted ctx t → Exhausted ctx (nested a t).state

    pub take_result-Exhausted :
        (nested : A → State C → Gathered A C) (r : A) (g : Gathered A C)
        → StaysExhausted nested
        → Exhausted ctx g.state
        → Exhausted ctx (take_result cache dns ctx pid nested r g).state
    unfolding take_result
    take_result-Exhausted nested r g below h = ground (arith, below (split_peer_id r).1 g.state h)

    take_results-Exhausted :
        (nested : A → State C → Gathered A C) (rs : List A) (g : Gathered A C)
        → StaysExhausted nested
        → Exhausted ctx g.state
        → Exhausted ctx (take_results cache dns ctx pid nested rs g).state
    unfolding take_results
    take_results-Exhausted nested [] g below h = h
    take_results-Exhausted nested (r ∷ rs) g below h = elim (Bool-cases (g.state.room == 0)) [
      | inl e ↦ rw (e, take_results) h
      | inr e ↦
          rw (e, take_results)
            (take_results-Exhausted nested rs _ below (take_result-Exhausted nested r g below h))
    ]

    pub expand-Exhausted :
        (depth : ℕ) (addr : A) (s : State C)
        → Exhausted ctx s
        → Exhausted ctx (expand cache dns ctx pid depth addr s).state
    unfolding expand
    expand-Exhausted zero addr s h = h
    expand-Exhausted (suc depth) addr s h =
        elim (Bool-cases
          (s.room == 0 || ctx_err ctx s.world.now || not (resolvable_dns_addr bare))) [
            | inl e ↦ rw (e, expand) h
            | inr e ↦
                let r = lookup cache dns ctx bare s in
                rw (e, expand)
                  (take_results-Exhausted (expand cache dns ctx pid depth) r.0.0
                    (record { out = []; complete = r.0.1; state = r.1 }) (expand-Exhausted depth)
                    (lookup-Exhausted bare s h))
          ]
      where
        bare : A
        bare = (split_peer_id addr).1
