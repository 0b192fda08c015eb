-- ===== src/DnsAddr/Contents/Record.antt =====
-- Which addresses a record has after resolveAddrs (dnsaddr.go).
use mathlib.Core.List.{Mem, append_assoc, mem-append_right, mem-cons_self}
use someguy.Prelude.{
  Bool-cases, arith, ◌≡◌, refl, sym, subst, ◌∙◌, ◌++◌, ◌⊎◌, inl, inr, Bool, true, false, not, ◌||◌,
  List, [], ◌∷◌, All, All-imp, is_empty,
}
use someguy.Prelude.Bytes.{Bytes}
use someguy.Multiaddr.{Multiaddr}
use someguy.Lru.{Lru, LruLaws}
use someguy.Context.{Ctx}
use someguy.DnsAddr.Host.{split_peer_id, is_dns_addr, contains_dns_addr}
use someguy.DnsAddr.Types.{CacheEntry, Dns, State, recursion_limit, max_resolved_per_record}
use someguy.DnsAddr.Expand.{
  Gathered, Output, append_all_unique, names_other_peer, expand, resolve_addr, resolve_each,
  resolve_addrs,
}
use someguy.DnsAddr.Contents.{append_unique-All, append_all_unique-All}
use someguy.DnsAddr.Contents.Sources.{HoldsGiven, old-HoldsGiven}
use someguy.DnsAddr.Contents.Leads.{LeadsTo, Blocked, Gathers, expand-Gathers}
use someguy.DnsAddr.Contents.Cuts.{Exhausted}
use someguy.DnsAddr.Contents.Cases.{if_cases, no_output, resolve_addr_cases}

module _ {A C : Type 0} ⦃m : Multiaddr A⦄ (cache : Lru C Bytes (CacheEntry A)) (dns : Dns A)
    (ctx : Ctx) (pid : Bytes) (keep_original : Bool) where
  -- The state in which the resolution of a record begins.
  abbrev pub with_room : State C → State C
  with_room s = record s { room = max_resolved_per_record }

  -- A /dnsaddr of the record that stays: it names no other peer, and originals are kept, or its expansion,
  -- after the addresses before it were resolved, gave nothing or was cut: the /dnsaddr cannot be
  -- followed to its end, or after it no room or no lookup was left or the request had ended.
  pub record Stays (addrs : List A) (s : State C) (x : A) : Type 0 where
    pub before : List A
    pub after : List A
    pub among : addrs ≡ before ++ (x ∷ after)
    pub own : names_other_peer pid (split_peer_id x).0 ≡ false
    pub reason :
        let (o, t) = resolve_each cache dns ctx pid keep_original before (no_output, with_room s) in
        let g = expand cache dns ctx pid recursion_limit x t in
        (keep_original ≡ true)
        ⊎ ((is_empty g.out ≡ true)
            ⊎ (Blocked cache dns s.world.cache pid recursion_limit x ⊎ Exhausted ctx g.state))

  -- A /dnsaddr of the record, of no other peer, leads to the address by what the cache has at the start,
  -- DNS answers and lookups in flight deliver.
  abbrev pub Resolved : List A → State C → A → Type 0
  Resolved addrs s x =
      (a : A) × Mem a addrs
      × (is_dns_addr a ≡ true)
      × (names_other_peer pid (split_peer_id a).0 ≡ false)
      × LeadsTo cache dns s.world.cache pid recursion_limit a x

  -- The three ways in which an address can come into the result.
  abbrev pub HasOrigin : List A → State C → A → Type 0
  HasOrigin addrs s x =
      (Mem x addrs × (is_dns_addr x ≡ false)) ⊎ (Stays addrs s x ⊎ Resolved addrs s x)

  resolve_each-append :
      (before : List A) (a : A) (os : Output A × State C)
      → resolve_each cache dns ctx pid keep_original (before ++ (a ∷ [])) os
        ≡ resolve_addr cache dns ctx pid keep_original a
            (resolve_each cache dns ctx pid keep_original before os)
  unfolding resolve_each
  resolve_each-append [] a os = refl
  resolve_each-append (b ∷ before) a os =
      resolve_each-append before a (resolve_addr cache dns ctx pid keep_original b os)

  module _ (laws : LruLaws C Bytes (CacheEntry A) cache) (addrs : List A)
      (nil-plain : (x : A) → m.is_nil x ≡ true → is_dns_addr x ≡ false) (s : State C) where
    -- What is known after some of the record's addresses.
    abbrev Sound : Output A × State C → Type 0
    Sound os =
        All (HasOrigin addrs s) os.0.out × HoldsGiven cache dns laws s.world.cache os.1.world.cache

    resolve_addr-HasOrigin :
        (before after : List A) (addr : A)
        → addrs ≡ before ++ (addr ∷ after)
        → let os = resolve_each cache dns ctx pid keep_original before (no_output, with_room s) in
          Sound os
          → All (HasOrigin addrs s) (resolve_addr cache dns ctx pid keep_original addr os).0.out
    resolve_addr-HasOrigin before after addr e h =
        resolve_addr_cases cache dns ctx pid keep_original (λ o'. All (HasOrigin addrs s) o'.out)
          addr os.0 os.1 (λ d. append_unique-All (HasOrigin addrs s) os.0 addr (inl (a, d)) h.0)
          (λ d. append_unique-All (HasOrigin addrs s) os.0 addr (inl (a, nil-plain addr d)) h.0)
          (λ _ _. h.0)
          (λ d n r.
            append_unique-All (HasOrigin addrs s) _ addr
              (inr (
                inl (record {
                  before = before;
                  after = after;
                  among = e;
                  own = n;
                  reason = because r;
                })))
              (extended d n))
          (λ d n _. extended d n)
      where
        os : Output A × State C
        os = resolve_each cache dns ctx pid keep_original before (no_output, with_room s)

        g : Gathered A C
        g = expand cache dns ctx pid recursion_limit addr os.1

        expanded : Gathers cache dns laws s.world.cache ctx pid recursion_limit addr g
        expanded = expand-Gathers cache dns laws s.world.cache ctx pid recursion_limit addr os.1 h.1

        because :
            (keep_original || not g.complete || is_empty g.out) ≡ true
            → (keep_original ≡ true)
              ⊎ ((is_empty g.out ≡ true)
                  ⊎ (Blocked cache dns s.world.cache pid recursion_limit addr
                      ⊎ Exhausted ctx g.state))
        because r = elim (Bool-cases keep_original) [
          | inl k ↦ inl k
          | inr k ↦ elim (Bool-cases (is_empty g.out)) [
            | inl n ↦ inr (inl n)
            | inr n ↦ inr (inr (expanded.1 (ground (arith, k, n, r))))
          ]
        ]

        a : Mem addr addrs
        a = rw e (mem-append_right before mem-cons_self)

        extended :
            is_dns_addr addr ≡ true
            → names_other_peer pid (split_peer_id addr).0 ≡ false
            → All (HasOrigin addrs s) (append_all_unique os.0 g.out).out
        extended d n =
            append_all_unique-All (HasOrigin addrs s) os.0 g.out
              (All-imp (LeadsTo cache dns s.world.cache pid recursion_limit addr)
                (HasOrigin addrs s) g.out (λ x l. inr (inr (addr, a, d, n, l))) expanded.0)
              h.0

    resolve_addr-HoldsGiven :
        (addr : A) (o : Output A) (t : State C)
        → HoldsGiven cache dns laws s.world.cache t.world.cache
        → HoldsGiven cache dns laws s.world.cache
            (resolve_addr cache dns ctx pid keep_original addr (o, t)).1.world.cache
    unfolding resolve_addr
    resolve_addr-HoldsGiven addr o t h =
        if_cases
          (λ (r : Output A × State C). HoldsGiven cache dns laws s.world.cache r.1.world.cache)
          (m.is_nil addr || not (is_dns_addr addr)) (names_other_peer pid (split_peer_id addr).0)
          (keep_original || not g.complete || is_empty g.out) _ _ _ _ (λ _. h) (λ _ _. h)
          (λ _ _ _. kept) (λ _ _ _. kept)
      where
        g : Gathered A C
        g = expand cache dns ctx pid recursion_limit addr t

        kept : HoldsGiven cache dns laws s.world.cache g.state.world.cache
        kept = (expand-Gathers cache dns laws s.world.cache ctx pid recursion_limit addr t h).2

    resolve_each-Sound :
        (before l : List A)
        → addrs ≡ before ++ l
        → let os = resolve_each cache dns ctx pid keep_original before (no_output, with_room s) in
          Sound os → Sound (resolve_each cache dns ctx pid keep_original l os)
    unfolding resolve_each
    resolve_each-Sound before [] e h = h
    resolve_each-Sound before (a ∷ rest) e h =
        subst (λ os'. Sound (resolve_each cache dns ctx pid keep_original rest os')) moved
          (resolve_each-Sound (before ++ (a ∷ [])) rest
            (e ∙ sym (append_assoc before (a ∷ []) rest))
            (subst Sound (sym moved)
              (resolve_addr-HasOrigin before rest a e h, resolve_addr-HoldsGiven a os.0 os.1 h.1)))
      where
        os : Output A × State C
        os = resolve_each cache dns ctx pid keep_original before (no_output, with_room s)

        moved :
            resolve_each cache dns ctx pid keep_original
              (before ++ (a ∷ []))
              (no_output, with_room s)
            ≡ resolve_addr cache dns ctx pid keep_original a os
        moved = resolve_each-append before a (no_output, with_room s)

    -- Every address that resolve_addrs returns for a record with a /dnsaddr in it has one of three
    -- origins, if an empty address has no /dnsaddr in it and the cache keeps the laws of an LRU
    -- cache. It is of the record and has no /dnsaddr in it. Or it is a /dnsaddr of the record that
    -- names no other peer, and originals are kept, or its expansion, in the state that resolving the
    -- addresses before it has left, gives nothing, or it cannot be followed to its end within four
    -- lookups (a name on the way fails or is none that can be looked up), or after its expansion no
    -- room or no lookup is left or the request has ended. Or a /dnsaddr of the record that names no
    -- other peer leads to it, within four lookups, by what the cache had, DNS answered or a lookup
    -- in flight delivered for the names on the way, where nothing on the way names another peer:
    -- then it is not empty and has no /dnsaddr in it.
    pub resolve_addrs-HasOrigin :
        contains_dns_addr addrs ≡ true
        → All (HasOrigin addrs s) (resolve_addrs cache dns ctx pid keep_original addrs s).0
    unfolding resolve_addrs resolve_each
    resolve_addrs-HasOrigin h =
        rw h (resolve_each-Sound [] addrs refl (tt, old-HoldsGiven cache dns laws s.world.cache)).0
