-- ===== src/DnsAddr/Lookup.antt =====
-- dnsaddr.go: spending the budget, lookup and resolve.
--
-- A lookup that misses the cache is one step of the model, from its start to the end of its select:
-- the query runs to its end, also when the request's context ends first, and then the clock goes
-- on from the time at which the select returned. Where both are ready the result is taken.
use someguy.Prelude.{
  ℕ, zero, suc, ◌+◌, Bool, true, false, Option, none, some, List, [], ◌∷◌, ltb, if◌then◌else◌,
}
use someguy.Prelude.Bytes.{Bytes}
use someguy.Multiaddr.{Multiaddr}
use someguy.Lru.{Lru}
use someguy.Context.{Ctx, ctx_err}
use someguy.DnsAddr.Host.{dns_addr_cache_key}
use someguy.DnsAddr.Types.{
  cache_ttl, failure_cache_ttl, CacheEntry, Answer, resolved, failed, Dns, World, State,
}

-- The entry's addresses and ok, its time to live, and the counter that goes up.
pub record Outcome (A C : Type 0) : Type 0 where
  pub addrs : List A
  pub ok : Bool
  pub ttl : ℕ
  pub counted : World C

unfoldable pub outcome : {A C : Type 0} → Answer A → World C → Outcome A C
outcome (failed true) w = record {
  addrs = [];
  ok = false;
  ttl = cache_ttl;
  counted = record w { failures = suc w.failures };
}
outcome (failed false) w = record {
  addrs = [];
  ok = false;
  ttl = failure_cache_ttl;
  counted = record w { failures = suc w.failures };
}
outcome (resolved []) w = record {
  addrs = [];
  ok = true;
  ttl = failure_cache_ttl;
  counted = record w { empties = suc w.empties };
}
outcome (resolved (a ∷ rest)) w = record {
  addrs = a ∷ rest;
  ok = true;
  ttl = cache_ttl;
  counted = record w { resolves = suc w.resolves };
}

module _ {A C : Type 0} ⦃m : Multiaddr A⦄ (cache : Lru C Bytes (CacheEntry A)) (dns : Dns A) where
  -- The query's start and end, and what it leaves in the cache.
  unfoldable pub resolve : A → Bytes → World C → CacheEntry A × World C
  unfolding outcome
  resolve addr key w =
      let reply = dns.resolve addr w.now in
      let finish = w.now + reply.took in
      let o = outcome reply.answer w in
      let entry : CacheEntry A = record { addrs = o.addrs; ok = o.ok; expires = finish + o.ttl } in
      (entry, record o.counted { now = finish; cache = cache.add w.cache key entry })

  -- flight.DoChan: joins the lookup in flight, or runs `resolve`.
  unfoldable pub do_chan : A → Bytes → World C → CacheEntry A × World C
  unfolding resolve
  do_chan addr key w = elim (dns.in_flight key w.now) [
    | some (entry, wait) ↦ (entry, record w { now = w.now + wait })
    | none ↦ resolve addr key w
  ]

  -- The select between the result and the context's end.
  unfoldable pub await : Ctx → CacheEntry A × World C → (List A × Bool) × World C
  await ctx (entry, w) = elim ctx.done_at [
    | none ↦ ((entry.addrs, entry.ok), w)
    | some t ↦
        if ltb t w.now then (([], false), record w { now = t }) else ((entry.addrs, entry.ok), w)
  ]

  -- budget.spend: the state after it, if there was a lookup left.
  unfoldable pub spend : State C → Bool × State C
  spend s = elim s.lookups [
    | zero ↦ (false, record s { world = record s.world { throttles = suc s.world.throttles } })
    | suc n ↦ (true, record s { lookups = n })
  ]

  -- An entry that the cache holds and that has not expired.
  abbrev pub fresh : Option (CacheEntry A) → ℕ → Option (CacheEntry A)
  fresh none now = none
  fresh (some e) now = if ltb now e.expires then some e else none

  abbrev pub query_if : Bool → Ctx → A → State C → (List A × Bool) × State C
  query_if false ctx addr s = (([], false), s)
  query_if true ctx addr s =
      let (r, w) = await ctx (do_chan addr (dns_addr_cache_key addr) s.world) in
      (r, record s { world = w })

  unfoldable pub lookup : Ctx → A → State C → (List A × Bool) × State C
  unfolding do_chan await spend
  lookup ctx addr s =
      let (found, cache') = cache.get s.world.cache (dns_addr_cache_key addr) in
      let now = s.world.now in
      let s' = record s { world = record s.world { cache = cache' } } in
      elim (fresh found now) [
        | some e ↦
            ((e.addrs, e.ok), record s' { world = record s'.world { hits = suc s'.world.hits } })
        | none ↦
            if ctx_err ctx now
            then (([], false), s')
            else let (allowed, s'') = spend s' in query_if allowed ctx addr s''
      ]
