-- ===== src/DnsAddr/Bounds.antt =====
-- What one request can cost: DNS queries, time, and addresses added to a record.
pub mod Record
use someguy.Prelude.{
  ℕ, zero, suc, ◌+◌, ◌*◌, ◌≤◌, ◌≡◌, refl, inl, inr, Bool, true, false, Option, none, some, List, [],
  ◌∷◌, ◌++◌, length, length-append, arith, Bool-cases, Option-cases,
}
use someguy.Prelude.Bytes.{Bytes}
use someguy.Multiaddr.{Multiaddr}
use someguy.Lru.{Lru}
use someguy.Context.{Ctx, ctx_err}
use someguy.DnsAddr.Types.{
  CacheEntry, Answer, resolved, failed, Dns, DnsLaws, World, State, queries, lookup_timeout,
}
use someguy.DnsAddr.Host.{dns_addr_cache_key}
use someguy.DnsAddr.Lookup.{outcome, resolve, do_chan, await, spend, lookup, fresh}

-- What a step may use up: it spends lookups, queries only against them, and time only against
-- them.
pub record Spends {C : Type 0} (s t : State C) : Type 0 where
  pub lookups_le : t.lookups ≤ s.lookups
  pub queries_le : queries t.world + t.lookups ≤ queries s.world + s.lookups
  pub time_le : t.world.now + lookup_timeout * t.lookups ≤ s.world.now + lookup_timeout * s.lookups
  pub clock_le : s.world.now ≤ t.world.now

pub Spends-trans : {C : Type 0} {s t u : State C} → Spends s t → Spends t u → Spends s u
Spends-trans h k = omega arith

outcome_counts :
    {A C : Type 0} (a : Answer A) (w : World C) → queries (outcome a w).counted ≡ queries w + 1
unfolding outcome
outcome_counts (failed true) w = omega arith
outcome_counts (failed false) w = omega arith
outcome_counts (resolved []) w = omega arith
outcome_counts (resolved (a ∷ rest)) w = omega arith

module _ {A C : Type 0} ⦃m : Multiaddr A⦄ (cache : Lru C Bytes (CacheEntry A)) (dns : Dns A)
    (laws : DnsLaws A dns) where
  -- One query at most, for the time that one lookup may take at most.
  do_chan_cost :
      (addr : A) (key : Bytes) (w : World C)
      → let w' = (do_chan cache dns addr key w).1 in
        (queries w' ≤ queries w + 1) × (w'.now ≤ w.now + lookup_timeout) × (w.now ≤ w'.now)
  unfolding do_chan resolve
  do_chan_cost addr key w = elim (Option-cases (dns.in_flight key w.now)) [
    | inl e ↦
        rw (e, do_chan)
          (ground (
            arith,
            outcome_counts (dns.resolve addr w.now).answer w,
            laws.resolve_timely addr w.now,
          ))
    | inr ((entry, wait), e) ↦
        rw (e, do_chan) (omega (arith, laws.in_flight_timely key w.now entry wait e))
  ]

  pub lookup-Spends :
      (ctx : Ctx) (addr : A) (s : State C) → Spends s (lookup cache dns ctx addr s).1
  unfolding lookup
  lookup-Spends ctx addr s = ground (
    arith,
    do_chan_cost addr (dns_addr_cache_key addr)
        (record s.world { cache = (cache.get s.world.cache (dns_addr_cache_key addr)).1 }),
  )

  pub lookup-room :
      (ctx : Ctx) (addr : A) (s : State C) → (lookup cache dns ctx addr s).1.room ≡ s.room
  unfolding lookup
  lookup-room ctx addr s = ground arith
