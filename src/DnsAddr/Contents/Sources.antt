-- ===== src/DnsAddr/Contents/Sources.antt =====
-- Where the addresses come from that a lookup (dnsaddr.go) gives, and why it gives no whole answer.
use mathlib.Core.List.{Mem, mem-cons, mem-cons_self}
use mathlib.Core.Logic.Or
use someguy.Prelude.{
  ℕ, ltb, ◌≡◌, refl, sym, subst, ◌∙◌, ◌⊎◌, inl, inr, Bool, true, false, Option, none, some, List,
  [], ◌∷◌, All, arith, Bool-cases, Option-cases,
}
use someguy.Prelude.Bytes.{Bytes, same, same_iff}
use someguy.Multiaddr.{Multiaddr}
use someguy.Lru.{Lru, LruLaws}
use someguy.Context.{Ctx, ctx_err}
use someguy.DnsAddr.Host.{dns_addr_cache_key}
use someguy.DnsAddr.Types.{CacheEntry, Answer, resolved, failed, Dns, World, State}
use someguy.DnsAddr.Lookup.{outcome, resolve, do_chan, await, spend, fresh, query_if, lookup}
use someguy.DnsAddr.Contents.Cuts.{Exhausted}

All-of_mem {ℓ κ} : {X : Type ℓ} (P : X → Type κ) (l : List X) → ((x : X) → Mem x l → P x) → All P l
All-of_mem P [] f = tt
All-of_mem P (x ∷ l) f = (f x mem-cons_self, All-of_mem P l (λ y h. f y (mem-cons.1 (Or.inr h))))

same_some : {X : Type 0} {a b : X} → some a ≡ some b → a ≡ b
same_some h = ground arith

module _ {A C : Type 0} ⦃m : Multiaddr A⦄ (cache : Lru C Bytes (CacheEntry A)) (dns : Dns A) where
  -- What is given for the name of a cache key, when the cache was `old`: what an entry that it had under
  -- the key holds, what a query answers at some time for an address with that key, and what a
  -- lookup of another request for the key delivers.
  pub data IsGiven (old : C) (key : Bytes) (r : A) : Type 0 where
    was_cached :
        (e : CacheEntry A) → cache.peek old key ≡ some e → Mem r e.addrs → IsGiven old key r
    answered :
        (a : A) (t : ℕ) (l : List A)
        → dns_addr_cache_key a ≡ key
        → (dns.resolve a t).answer ≡ resolved l
        → Mem r l
        → IsGiven old key r
    delivered :
        (t : ℕ) (e : CacheEntry A) (wait : ℕ)
        → dns.in_flight key t ≡ some (e, wait)
        → Mem r e.addrs
        → IsGiven old key r

  -- A failure that is given for the name of a cache key: in an entry that the cache had, from a query at
  -- some time for an address with that key, or from a lookup of another request for the key.
  pub data Fails (old : C) (key : Bytes) : Type 0 where
    failure_cached : (e : CacheEntry A) → cache.peek old key ≡ some e → e.ok ≡ false → Fails old key
    query_failed :
        (a : A) (t : ℕ) (deadline_exceeded : Bool)
        → dns_addr_cache_key a ≡ key
        → (dns.resolve a t).answer ≡ failed deadline_exceeded
        → Fails old key
    failure_delivered :
        (t : ℕ) (e : CacheEntry A) (wait : ℕ)
        → dns.in_flight key t ≡ some (e, wait)
        → e.ok ≡ false
        → Fails old key

  -- An entry for a key holds only what is given for it, and is a failure only if one is given.
  abbrev IsVouched : C → Bytes → CacheEntry A → Type 0
  IsVouched old key e = All (IsGiven old key) e.addrs × (e.ok ≡ false → Fails old key)

  module _ (laws : LruLaws C Bytes (CacheEntry A) cache) (old : C) where
    -- Every entry of a cache holds only what is given for its key.
    abbrev pub HoldsGiven : C → Type 0
    HoldsGiven c =
        (key : Bytes) (e : CacheEntry A) → cache.peek c key ≡ some e → IsVouched old key e

    pub old-HoldsGiven : HoldsGiven old
    old-HoldsGiven key e h =
        (All-of_mem (IsGiven old key) e.addrs (λ r. was_cached e h), failure_cached e h)

    get-HoldsGiven : (c : C) (key : Bytes) → HoldsGiven c → HoldsGiven (cache.get c key).1
    get-HoldsGiven c key h j e p = h j e (sym (laws.peek-get c key j) ∙ p)

    add-HoldsGiven :
        (c : C) (key : Bytes) (e : CacheEntry A)
        → HoldsGiven c
        → IsVouched old key e
        → HoldsGiven (cache.add c key e)
    add-HoldsGiven c key e h given j f p = elim (Bool-cases (same key j)) [
      | inl q ↦
          let k = (same_iff key j).0 q in
          let entries : some e ≡ some f =
            sym (laws.peek-add_self c key e)
            ∙ subst (λ i. cache.peek (cache.add c key e) i ≡ some f) (sym k) p in
          subst (λ i. IsVouched old i f) k
            (subst (λ (d : CacheEntry A). IsVouched old key d) (same_some entries) given)
      | inr q ↦ elim (laws.peek-add_ne c key j e (λ k. ground (arith, (same_iff key j).1 k, q))) [
        | inl stays ↦ h j f (sym stays ∙ p)
        | inr evicted ↦ absurd (ground (arith, evicted, p))
      ]
    ]

    outcome_vouched :
        (addr : A) (t : ℕ) (answer : Answer A) (w : World C)
        → (dns.resolve addr t).answer ≡ answer
        → let o = outcome answer w in
          All (IsGiven old (dns_addr_cache_key addr)) o.addrs
          × (o.ok ≡ false → Fails old (dns_addr_cache_key addr))
    unfolding outcome
    outcome_vouched addr t (failed true) w h = (tt, λ _. query_failed addr t true refl h)
    outcome_vouched addr t (failed false) w h = (tt, λ _. query_failed addr t false refl h)
    outcome_vouched addr t (resolved []) w h = (tt, λ f. absurd (ground (arith, f)))
    outcome_vouched addr t (resolved (a ∷ l)) w h = (
      All-of_mem (IsGiven old (dns_addr_cache_key addr)) (a ∷ l)
          (λ r. answered addr t (a ∷ l) refl h),
      λ f. absurd (ground (arith, f)),
    )

    -- The entry and the world of a lookup that is given for the key of its address.
    abbrev Gives : Bytes → CacheEntry A × World C → Type 0
    Gives key (entry, w) = IsVouched old key entry × HoldsGiven w.cache

    resolve-Gives :
        (addr : A) (w : World C)
        → HoldsGiven w.cache
        → Gives (dns_addr_cache_key addr) (resolve cache dns addr (dns_addr_cache_key addr) w)
    unfolding resolve
    resolve-Gives addr w h =
        let given = outcome_vouched addr w.now (dns.resolve addr w.now).answer w refl in
        (given, add-HoldsGiven w.cache (dns_addr_cache_key addr) _ h given)

    do_chan-Gives :
        (addr : A) (w : World C)
        → HoldsGiven w.cache
        → Gives (dns_addr_cache_key addr) (do_chan cache dns addr (dns_addr_cache_key addr) w)
    unfolding do_chan
    do_chan-Gives addr w h = elim (Option-cases (dns.in_flight (dns_addr_cache_key addr) w.now)) [
      | inl n ↦ rw (n, do_chan) (resolve-Gives addr w h)
      | inr (e, q) ↦
          rw (q, do_chan)
            (
              (
                All-of_mem (IsGiven old (dns_addr_cache_key addr)) e.0.addrs
                    (λ r. delivered w.now e.0 e.1 q),
                failure_delivered w.now e.0 e.1 q,
              ),
              h,
            )
    ]

    -- The addresses are given for the key, what is not whole has a reason, and the cache is sound.
    abbrev Answers : Bytes → Type 0 → (List A × Bool) × C → Type 0
    Answers key Reason (r, c) =
        All (IsGiven old key) r.0 × (r.1 ≡ false → Fails old key ⊎ Reason) × HoldsGiven c

    await-Answers :
        (ctx : Ctx) (key : Bytes) (r : CacheEntry A × World C)
        → Gives key r
        → let a = await cache dns ctx r in Answers key (ctx_err ctx a.1.now ≡ true) (a.0, a.1.cache)
    unfolding await
    await-Answers ctx key (entry, w) h = elim (Option-cases ctx.done_at) [
      | inl n ↦ rw (n, await) (h.0.0, λ f. inl (h.0.1 f), h.1)
      | inr (t, q) ↦ elim (Bool-cases (ltb t w.now)) [
        | inl e ↦ rw (q, e, await) (tt, λ _. inr (ground (arith, q)), h.1)
        | inr e ↦ rw (q, e, await) (h.0.0, λ f. inl (h.0.1 f), h.1)
      ]
    ]

    query_if-Answers :
        (allowed : Bool) (ctx : Ctx) (addr : A) (s : State C)
        → (allowed ≡ false → s.lookups ≡ 0)
        → HoldsGiven s.world.cache
        → let r = query_if cache dns allowed ctx addr s in
          Answers (dns_addr_cache_key addr) (Exhausted ctx r.1) (r.0, r.1.world.cache)
    query_if-Answers false ctx addr s z h = (tt, λ _. inr (inr (inl (z refl))), h)
    query_if-Answers true ctx addr s z h =
        let a = await-Answers ctx (dns_addr_cache_key addr) _ (do_chan-Gives addr s.world h) in
        (a.0, λ f. elim (a.1 f) [ inl e ↦ inl e | inr e ↦ inr (inr (inr e)) ], a.2)

    spend-cache : (s : State C) → (spend cache dns s).1.world.cache ≡ s.world.cache
    unfolding spend
    spend-cache s = ground arith

    spend-none : (s : State C) → (spend cache dns s).0 ≡ false → (spend cache dns s).1.lookups ≡ 0
    unfolding spend
    spend-none s h = ground arith

    fresh-some :
        (o : Option (CacheEntry A)) (now : ℕ) (e : CacheEntry A)
        → fresh cache dns o now ≡ some e
        → o ≡ some e
    fresh-some none now e h = absurd (ground (arith, h))
    fresh-some (some f) now e h = ground (arith, h)

    -- A lookup gives only what is given for the key of its address, and caches nothing else. Where it is not
    -- whole, a failure is given or the request has nothing left.
    pub lookup-Answers :
        (ctx : Ctx) (addr : A) (s : State C)
        → HoldsGiven s.world.cache
        → let r = lookup cache dns ctx addr s in
          Answers (dns_addr_cache_key addr) (Exhausted ctx r.1) (r.0, r.1.world.cache)
    unfolding lookup
    lookup-Answers ctx addr s h = elim (Option-cases (fresh cache dns got.0 s.world.now)) [
      | inl n ↦ elim (Bool-cases (ctx_err ctx s.world.now)) [
        | inl e ↦ rw (n, e, lookup) (tt, λ _. inr (inr (inr e)), kept)
        | inr e ↦
            rw (n, e, lookup)
              (query_if-Answers (spend cache dns s').0 ctx addr (spend cache dns s').1
                (spend-none s') (rw (spend-cache s') kept))
      ]
      | inr (e, q) ↦ rw (q, lookup) ((held e q).0, λ f. inl ((held e q).1 f), kept)
    ]
      where
        key : Bytes
        key = dns_addr_cache_key addr

        got : Option (CacheEntry A) × C
        got = cache.get s.world.cache key

        s' : State C
        s' = record s { world = record s.world { cache = got.1 } }

        held : (e : CacheEntry A) → fresh cache dns got.0 s.world.now ≡ some e → IsVouched old key e
        held e q =
            h key e (sym (laws.get-peek s.world.cache key) ∙ fresh-some got.0 s.world.now e q)

        kept : HoldsGiven got.1
        kept = get-HoldsGiven s.world.cache key h
