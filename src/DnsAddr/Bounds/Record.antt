-- ===== src/DnsAddr/Bounds/Record.antt =====
-- The cost of expanding one /dnsaddr and of resolving the addresses of one record.
use someguy.Prelude.{
  ℕ, zero, suc, ◌+◌, ◌≤◌, ◌≡◌, ◌≢◌, inl, inr, Bool, List, [], ◌∷◌, length, length-append, arith,
  Bool-cases, ◌==◌,
}
use someguy.Prelude.Bytes.{Bytes}
use someguy.Multiaddr.{Multiaddr}
use someguy.Lru.{Lru}
use someguy.Context.{Ctx}
use someguy.DnsAddr.Types.{
  CacheEntry, Dns, DnsLaws, State, recursion_limit, max_resolved_per_record,
}
use someguy.DnsAddr.Host.{split_peer_id}
use someguy.DnsAddr.Lookup.{lookup}
use someguy.DnsAddr.Expand.{
  Gathered, Output, append_unique, append_all_unique, take_result, take_results, expand,
  resolve_addr, resolve_each, resolve_addrs,
}
use someguy.DnsAddr.Bounds.{Spends, lookup-Spends, lookup-room}

-- Each address that was gathered took one place of the room.
pub record Fits {A C : Type 0} (s : State C) (g : Gathered A C) : Type 0 where
  pub spends : Spends s g.state
  pub room : length g.out + g.state.room ≡ s.room

module _ {A C : Type 0} ⦃m : Multiaddr A⦄ (cache : Lru C Bytes (CacheEntry A)) (dns : Dns A)
    (laws : DnsLaws A dns) (ctx : Ctx) (pid : Bytes) where
  take_result-Fits :
      (nested : A → State C → Gathered A C) (r : A) (s : State C) (g : Gathered A C)
      → ((a : A) (t : State C) → Fits t (nested a t))
      → g.state.room ≢ 0
      → Fits s g
      → Fits s (take_result cache dns ctx pid nested r g)
  unfolding take_result
  take_result-Fits nested r s g keep has h = ground (
    arith,
    keep (split_peer_id r).1 g.state,
    length-append g.out (nested (split_peer_id r).1 g.state).out,
    length-append g.out ((split_peer_id r).1 ∷ []),
  )

  take_results-Fits :
      (nested : A → State C → Gathered A C) (rs : List A) (s : State C) (g : Gathered A C)
      → ((a : A) (t : State C) → Fits t (nested a t))
      → Fits s g
      → Fits s (take_results cache dns ctx pid nested rs g)
  unfolding take_results
  take_results-Fits nested [] s g keep h = h
  take_results-Fits nested (r ∷ rs) s g keep h = elim (Bool-cases (g.state.room == 0)) [
    | inl e ↦ rw (e, take_results) (record { spends = h.spends; room = h.room })
    | inr e ↦
        rw (e, take_results)
          (take_results-Fits nested rs s _ keep
            (take_result-Fits nested r s g keep (ground arith) h))
  ]

  -- The expansion of one /dnsaddr at any depth spends only the request's lookups, and takes one
  -- place of the record's room for each address that it returns.
  pub expand-Fits :
      (depth : ℕ) (addr : A) (s : State C) → Fits s (expand cache dns ctx pid depth addr s)
  unfolding expand
  expand-Fits zero addr s = omega arith
  expand-Fits (suc depth) addr s =
      ground (arith, take_results-Fits nested r.0.0 s found (expand-Fits depth) found-Fits)
    where
      nested : A → State C → Gathered A C
      nested = expand cache dns ctx pid depth

      r : (List A × Bool) × State C
      r = lookup cache dns ctx (split_peer_id addr).1 s

      found : Gathered A C
      found = record { out = []; complete = r.0.1; state = r.1 }

      found-Fits : Fits s found
      found-Fits = record {
        spends = lookup-Spends cache dns laws ctx (split_peer_id addr).1 s;
        room = omega (arith, lookup-room cache dns laws ctx (split_peer_id addr).1 s);
      }

  length-append_unique : (o : Output A) (a : A) → length (append_unique o a).out ≤ length o.out + 1
  unfolding append_unique
  length-append_unique o a = ground (arith, length-append o.out (a ∷ []))

  length-append_all_unique :
      (o : Output A) (l : List A) → length (append_all_unique o l).out ≤ length o.out + length l
  unfolding append_all_unique
  length-append_all_unique o [] = omega arith
  length-append_all_unique o (a ∷ l) =
      omega (arith, length-append_all_unique (append_unique o a) l, length-append_unique o a)

  resolve_addr_cost :
      (keep_original : Bool) (addr : A) (o : Output A) (s : State C)
      → let r = resolve_addr cache dns ctx pid keep_original addr (o, s) in
        Spends s r.1 × (length r.0.out + r.1.room ≤ length o.out + s.room + 1)
  unfolding resolve_addr
  resolve_addr_cost keep_original addr o s = ground (
    arith,
    length-append_unique o addr,
    expand-Fits recursion_limit addr s,
    length-append_all_unique o g.out,
    length-append_unique (append_all_unique o g.out) addr,
  )
    where
      g : Gathered A C
      g = expand cache dns ctx pid recursion_limit addr s

  resolve_each_cost :
      (keep_original : Bool) (addrs : List A) (o : Output A) (s : State C)
      → let r = resolve_each cache dns ctx pid keep_original addrs (o, s) in
        Spends s r.1 × (length r.0.out + r.1.room ≤ length o.out + s.room + length addrs)
  unfolding resolve_each
  resolve_each_cost keep_original [] o s = omega arith
  resolve_each_cost keep_original (a ∷ rest) o s =
      let r = resolve_addr cache dns ctx pid keep_original a (o, s) in
      let rest_cost = resolve_each_cost keep_original rest r.0 r.1 in
      omega (arith, resolve_addr_cost keep_original a o s, rest_cost)

  -- Resolving the addresses of one record spends only the request's lookups: every query and
  -- every second of waiting is taken from them, if a query and a query of another request that
  -- is joined end within the lookup timeout. The record gains at most 100 addresses.
  pub resolve_addrs_cost :
      (keep_original : Bool) (addrs : List A) (s : State C)
      → let r = resolve_addrs cache dns ctx pid keep_original addrs s in
        Spends s r.1 × (length r.0 ≤ length addrs + max_resolved_per_record)
  unfolding resolve_addrs
  resolve_addrs_cost keep_original addrs s = ground (
    arith,
    resolve_each_cost keep_original addrs (record { out = []; seen = [] })
        (record s { room = max_resolved_per_record }),
  )
