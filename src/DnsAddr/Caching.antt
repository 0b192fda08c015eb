-- ===== src/DnsAddr/Caching.antt =====
-- What a lookup (dnsaddr.go) leaves for later ones: the cache and the counters after it.
use someguy.Prelude.{ℕ, suc, ◌<◌, ◌≡◌, false, none, some, arith, sym, ◌∙◌}
use someguy.Prelude.Bytes.{Bytes}
use someguy.Multiaddr.{Multiaddr}
use someguy.Lru.{Lru, LruLaws}
use someguy.Context.{Ctx, ctx_err}
use someguy.DnsAddr.Types.{CacheEntry, Dns, Answer, World, State, queries}
use someguy.DnsAddr.Host.{dns_addr_cache_key}
use someguy.DnsAddr.Lookup.{outcome, resolve, do_chan, await, fresh, lookup}

module _ {A C : Type 0} ⦃m : Multiaddr A⦄ (cache : Lru C Bytes (CacheEntry A)) (dns : Dns A) where
  -- The cache after a lookup, each of the counters of hits, resolved, empty, failed and throttled
  -- lookups, and the lookups that the request has left do not depend on when the request ends,
  -- if it has not ended when the lookup starts.
  pub lookup_detached :
      (ctx ctx' : Ctx) (addr : A) (s : State C)
      → ctx_err ctx s.world.now ≡ false
      → ctx_err ctx' s.world.now ≡ false
      → let w = (lookup cache dns ctx addr s).1.world in
        let w' = (lookup cache dns ctx' addr s).1.world in
        (w.cache ≡ w'.cache)
        × (w.hits ≡ w'.hits)
        × (w.resolves ≡ w'.resolves)
        × (w.empties ≡ w'.empties)
        × (w.failures ≡ w'.failures)
        × (w.throttles ≡ w'.throttles)
        × ((lookup cache dns ctx addr s).1.lookups ≡ (lookup cache dns ctx' addr s).1.lookups)
  unfolding lookup await
  lookup_detached ctx ctx' addr s h k = ground arith

  outcome_ttl : (a : Answer A) (w : World C) → 0 < (outcome a w).ttl
  unfolding outcome
  outcome_ttl a w = ground arith

  lookup_hit :
      (laws : LruLaws C Bytes (CacheEntry A) cache) (ctx : Ctx) (addr : A) (s : State C)
      (e : CacheEntry A)
      → cache.peek s.world.cache (dns_addr_cache_key addr) ≡ some e
      → s.world.now < e.expires
      → let r = lookup cache dns ctx addr s in
        (r.0 ≡ (e.addrs, e.ok))
        × (queries r.1.world ≡ queries s.world)
        × (r.1.world.hits ≡ suc s.world.hits)
        × (r.1.lookups ≡ s.lookups)
  unfolding lookup
  lookup_hit laws ctx addr s e h live =
      ground (arith, laws.get-peek s.world.cache (dns_addr_cache_key addr))

  resolve_stores :
      (laws : LruLaws C Bytes (CacheEntry A) cache) (addr : A) (key : Bytes) (w : World C)
      → let (entry, w') = resolve cache dns addr key w in
        (cache.peek w'.cache key ≡ some entry) × (w'.now < entry.expires)
  unfolding resolve
  resolve_stores laws addr key w =
      (laws.peek-add_self _ _ _, omega (arith, outcome_ttl (dns.resolve addr w.now).answer w))

  lookup_miss :
      (laws : LruLaws C Bytes (CacheEntry A) cache) (addr : A) (s : State C)
      → dns.in_flight (dns_addr_cache_key addr) s.world.now ≡ none
      → fresh cache dns (cache.peek s.world.cache (dns_addr_cache_key addr)) s.world.now ≡ none
      → 0 < s.lookups
      → let r = lookup cache dns (record { done_at = none }) addr s in
        let key = dns_addr_cache_key addr in
        let (entry, w') =
          resolve cache dns addr key (record s.world { cache = (cache.get s.world.cache key).1 }) in
        (r.0 ≡ (entry.addrs, entry.ok)) × (r.1.world ≡ w')
  unfolding lookup await do_chan
  lookup_miss laws addr s free miss left =
      ground (arith, laws.get-peek s.world.cache (dns_addr_cache_key addr))

  -- A lookup of an address that no query in flight answers, and for which the cache has no entry or one
  -- that has expired, by a request with lookups left and a context that does not end, is
  -- remembered, if the cache keeps the laws of an LRU cache: the next lookup of the address, by
  -- whatever request and at once, gives the same addresses and the same verdict, is counted as a
  -- hit, and takes no query and no lookup.
  pub lookup_again :
      (laws : LruLaws C Bytes (CacheEntry A) cache) (addr : A) (s : State C) (ctx' : Ctx)
      (lookups' : ℕ)
      → dns.in_flight (dns_addr_cache_key addr) s.world.now ≡ none
      → fresh cache dns (cache.peek s.world.cache (dns_addr_cache_key addr)) s.world.now ≡ none
      → 0 < s.lookups
      → let r = lookup cache dns (record { done_at = none }) addr s in
        let r' = lookup cache dns ctx' addr (record r.1 { lookups = lookups' }) in
        (r'.0 ≡ r.0)
        × (queries r'.1.world ≡ queries r.1.world)
        × (r'.1.world.hits ≡ suc r.1.world.hits)
        × (r'.1.lookups ≡ lookups')
  lookup_again laws addr s ctx' lookups' free miss left =
      let missed = lookup_miss laws addr s free miss left in
      let key = dns_addr_cache_key addr in
      let w = record s.world { cache = (cache.get s.world.cache key).1 } in
      let again =
        lookup_hit laws ctx' addr
          (record (lookup cache dns (record { done_at = none }) addr s).1 { lookups = lookups' })
          (resolve cache dns addr key w).0 (rw missed.1 (resolve_stores laws addr key w).0)
          (rw missed.1 (resolve_stores laws addr key w).1) in
      (again.0 ∙ sym missed.0, again.1, again.2, again.3)
