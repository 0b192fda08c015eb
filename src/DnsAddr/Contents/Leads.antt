-- ===== src/DnsAddr/Contents/Leads.antt =====
-- Which addresses an expansion of a /dnsaddr (dnsaddr.go: expand) can give, and why it is not whole.
use someguy.Prelude.{
  ℕ, zero, suc, ◌&&◌, ◌⊎◌, ◌≡◌, inl, inr, true, false, not, ◌||◌, List, [], ◌∷◌, All, All-imp,
  All-append, arith, Bool-cases, ◌==◌,
}
use someguy.Prelude.Bytes.{Bytes}
use someguy.Multiaddr.{Multiaddr}
use someguy.Lru.{Lru, LruLaws}
use someguy.Context.{Ctx, ctx_err}
use someguy.DnsAddr.Host.{dns_addr_cache_key, split_peer_id, is_dns_addr, resolvable_dns_addr}
use someguy.DnsAddr.Types.{CacheEntry, Dns, State}
use someguy.DnsAddr.Lookup.{lookup}
use someguy.DnsAddr.Expand.{Gathered, names_other_peer, take_result, take_results, expand}
use someguy.DnsAddr.Contents.Cuts.{Exhausted, expand-Exhausted}
use someguy.DnsAddr.Contents.Sources.{IsGiven, Fails, HoldsGiven, lookup-Answers}

module _ {A C : Type 0} ⦃m : Multiaddr A⦄ (cache : Lru C Bytes (CacheEntry A)) (dns : Dns A) where
  -- A /dnsaddr leads to an address within a number of lookups: each is for a bare /dnsaddr, the first
  -- for the one at hand and the next for one that was given; nothing that was given names another
  -- peer, and the last is not empty and has no /dnsaddr in it.
  pub data LeadsTo (old : C) (pid : Bytes) : ℕ → A → A → Type 0 where
    at_once :
        (n : ℕ) (addr r : A)
        → resolvable_dns_addr (split_peer_id addr).1 ≡ true
        → IsGiven cache dns old (dns_addr_cache_key (split_peer_id addr).1) r
        → names_other_peer pid (split_peer_id r).0 ≡ false
        → m.is_nil (split_peer_id r).1 ≡ false
        → is_dns_addr (split_peer_id r).1 ≡ false
        → LeadsTo old pid (suc n) addr (split_peer_id r).1
    through :
        (n : ℕ) (addr r x : A)
        → resolvable_dns_addr (split_peer_id addr).1 ≡ true
        → IsGiven cache dns old (dns_addr_cache_key (split_peer_id addr).1) r
        → names_other_peer pid (split_peer_id r).0 ≡ false
        → is_dns_addr (split_peer_id r).1 ≡ true
        → LeadsTo old pid n (split_peer_id r).1 x
        → LeadsTo old pid (suc n) addr x

  -- A /dnsaddr cannot be followed to its end within a number of lookups: it needs one more, it is none
  -- that can be looked up, a failure is given for its name, or one of these holds of a /dnsaddr that is
  -- given for its name and names no other peer.
  pub data Blocked (old : C) (pid : Bytes) : ℕ → A → Type 0 where
    too_deep : (addr : A) → Blocked old pid 0 addr
    not_resolvable :
        (n : ℕ) (addr : A)
        → resolvable_dns_addr (split_peer_id addr).1 ≡ false
        → Blocked old pid (suc n) addr
    fails_at :
        (n : ℕ) (addr : A)
        → resolvable_dns_addr (split_peer_id addr).1 ≡ true
        → Fails cache dns old (dns_addr_cache_key (split_peer_id addr).1)
        → Blocked old pid (suc n) addr
    blocked_at :
        (n : ℕ) (addr r : A)
        → resolvable_dns_addr (split_peer_id addr).1 ≡ true
        → IsGiven cache dns old (dns_addr_cache_key (split_peer_id addr).1) r
        → names_other_peer pid (split_peer_id r).0 ≡ false
        → is_dns_addr (split_peer_id r).1 ≡ true
        → Blocked old pid n (split_peer_id r).1
        → Blocked old pid (suc n) addr

  module _ (laws : LruLaws C Bytes (CacheEntry A) cache) (old : C) (ctx : Ctx) (pid : Bytes) where
    -- Why an expansion is not whole.
    abbrev Cut : ℕ → A → Gathered A C → Type 0
    Cut n addr g = Blocked old pid n addr ⊎ Exhausted ctx g.state

    -- What an expansion has gathered is what the address leads to, it is whole unless it was cut, and the
    -- cache is sound.
    abbrev pub Gathers : ℕ → A → Gathered A C → Type 0
    Gathers n addr g =
        All (LeadsTo old pid n addr) g.out
        × (g.complete ≡ false → Cut n addr g)
        × HoldsGiven cache dns laws old g.state.world.cache

    abbrev Expands : ℕ → (A → State C → Gathered A C) → Type 0
    Expands n nested =
        (a : A) (t : State C)
        → HoldsGiven cache dns laws old t.world.cache
        → Gathers n a (nested a t)

    take_result-Gathers :
        (n : ℕ) (nested : A → State C → Gathered A C)
        → Expands n nested
        → ((a : A) (t : State C) → Exhausted ctx t → Exhausted ctx (nested a t).state)
        → (addr r : A) → resolvable_dns_addr (split_peer_id addr).1 ≡ true
        → IsGiven cache dns old (dns_addr_cache_key (split_peer_id addr).1) r
        → (g : Gathered A C) → Gathers (suc n) addr g
        → Gathers (suc n) addr (take_result cache dns ctx pid nested r g)
    unfolding take_result
    take_result-Gathers n nested below stays addr r bare given g h =
        elim (Bool-cases (names_other_peer pid (split_peer_id r).0 || m.is_nil rest)) [
          | inl e ↦ rw (e, take_result) h
          | inr e ↦ elim (Bool-cases (is_dns_addr rest)) [
            | inl d ↦
                let ih = below rest g.state h.2 in
                rw (e, d, take_result)
                  (
                    All-append (LeadsTo old pid (suc n) addr) g.out (nested rest g.state).out h.0 (
                        All-imp (LeadsTo old pid n rest) (LeadsTo old pid (suc n) addr)
                          (nested rest g.state).out
                          (λ x. through n addr r x bare given (ground arith) d) ih.0),
                    λ f. whole d (ground arith) f,
                    ih.2,
                  )
            | inr d ↦
                rw (e, d, take_result)
                  (
                    All-append (LeadsTo old pid (suc n) addr) g.out (rest ∷ []) h.0
                        (at_once n addr r bare given (ground arith) (ground arith) d, tt),
                    λ f. elim (h.1 f) [ inl b ↦ inl b | inr x ↦ inr (ground (arith, x)) ],
                    h.2,
                  )
          ]
        ]
      where
        rest : A
        rest = (split_peer_id r).1

        -- Either what was gathered before or the nested expansion is not whole.
        whole :
            is_dns_addr rest ≡ true
            → names_other_peer pid (split_peer_id r).0 ≡ false
            → (g.complete && (nested rest g.state).complete) ≡ false
            → Blocked old pid (suc n) addr ⊎ Exhausted ctx (nested rest g.state).state
        whole d own f = elim (Bool-cases g.complete) [
          | inl c ↦ elim ((below rest g.state h.2).1 (ground (arith, c, f))) [
            | inl b ↦ inl (blocked_at n addr r bare given own d b)
            | inr x ↦ inr x
          ]
          | inr c ↦ elim (h.1 c) [ inl b ↦ inl b | inr x ↦ inr (stays rest g.state x) ]
        ]

    take_results-Gathers :
        (n : ℕ) (nested : A → State C → Gathered A C)
        → Expands n nested
        → ((a : A) (t : State C) → Exhausted ctx t → Exhausted ctx (nested a t).state)
        → (addr : A) → resolvable_dns_addr (split_peer_id addr).1 ≡ true
        → (rs : List A) → All (IsGiven cache dns old (dns_addr_cache_key (split_peer_id addr).1)) rs
        → (g : Gathered A C) → Gathers (suc n) addr g
        → Gathers (suc n) addr (take_results cache dns ctx pid nested rs g)
    unfolding take_results
    take_results-Gathers n nested below stays addr bare [] given g h = h
    take_results-Gathers n nested below stays addr bare (r ∷ rs) given g h =
        elim (Bool-cases (g.state.room == 0)) [
          | inl e ↦ rw (e, take_results) (h.0, λ _. inr (inl (ground arith)), h.2)
          | inr e ↦
              rw (e, take_results)
                (take_results-Gathers n nested below stays addr bare rs given.1 _
                  (take_result-Gathers n nested below stays addr r bare given.0 g h))
        ]

    -- An expansion yields only addresses that its /dnsaddr leads to, and is whole unless it was cut.
    pub expand-Gathers : (depth : ℕ) → Expands depth (expand cache dns ctx pid depth)
    unfolding expand
    expand-Gathers zero addr s h = (tt, λ _. inl (too_deep addr), h)
    expand-Gathers (suc depth) addr s h =
        elim (Bool-cases
          (s.room == 0 || ctx_err ctx s.world.now || not (resolvable_dns_addr bare))) [
            | inl e ↦ rw (e, expand) (tt, λ _. at_once_cut e, h)
            | inr e ↦
                let answered = lookup-Answers cache dns laws old ctx bare s h in
                let r = lookup cache dns ctx bare s in
                rw (e, expand)
                  (take_results-Gathers depth (expand cache dns ctx pid depth)
                    (expand-Gathers depth) (expand-Exhausted cache dns ctx pid depth) addr
                    (ground arith) r.0.0 answered.0
                    (record { out = []; complete = r.0.1; state = r.1 })
                    (tt, λ f. unanswered (ground arith) (answered.1 f), answered.2))
          ]
      where
        bare : A
        bare = (split_peer_id addr).1

        at_once_cut :
            (s.room == 0 || ctx_err ctx s.world.now || not (resolvable_dns_addr bare)) ≡ true
            → Blocked old pid (suc depth) addr ⊎ Exhausted ctx s
        at_once_cut e = elim (Bool-cases (resolvable_dns_addr bare)) [
          | inl b ↦ elim (Bool-cases (s.room == 0)) [
            | inl z ↦ inr (inl (ground arith))
            | inr z ↦ inr (inr (inr (ground arith)))
          ]
          | inr b ↦ inl (not_resolvable depth addr b)
        ]

        unanswered :
            resolvable_dns_addr bare ≡ true
            → Fails cache dns old (dns_addr_cache_key bare)
              ⊎ Exhausted ctx (lookup cache dns ctx bare s).1
            → Blocked old pid (suc depth) addr ⊎ Exhausted ctx (lookup cache dns ctx bare s).1
        unanswered b (inl f) = inl (fails_at depth addr b f)
        unanswered b (inr x) = inr x
