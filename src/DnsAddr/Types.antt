-- ===== src/DnsAddr/Types.antt =====
-- dnsaddr.go: the budget of a request, cache entries, the state that a resolution works on, and
-- the parameters that stand for madns and singleflight.
use someguy.Prelude.{ℕ, ◌+◌, ◌*◌, ◌≤◌, Bool, Option, some, List, ◌≡◌}
use someguy.Prelude.Bytes.{Bytes}
use someguy.Context.{second, minute}

abbrev pub recursion_limit : ℕ
recursion_limit = 4

abbrev pub lookup_timeout : ℕ
lookup_timeout = second

abbrev pub cache_ttl : ℕ
cache_ttl = 5 * minute

abbrev pub failure_cache_ttl : ℕ
failure_cache_ttl = 15 * minute

abbrev pub max_lookups_per_request : ℕ
max_lookups_per_request = 16

abbrev pub max_resolved_per_record : ℕ
max_resolved_per_record = 100

-- dnsAddrCacheEntry
pub record CacheEntry (A : Type 0) : Type 0 where
  pub addrs : List A
  pub ok : Bool
  pub expires : ℕ

-- What madns.Resolver.Resolve returns: addresses, or an error that is context.DeadlineExceeded
-- or not.
pub data Answer (A : Type 0) : Type 0 where
  resolved : List A → Answer A
  failed : (deadline_exceeded : Bool) → Answer A

pub record Reply (A : Type 0) : Type 0 where
  pub answer : Answer A
  pub took : ℕ

-- madns at a time, and singleflight.Group.DoChan: the lookup of another request for the same key
-- that is in flight at a time, with the entry that it will deliver and how long that takes.
pub record Dns (A : Type 0) : Type 0 where
  pub resolve : A → ℕ → Reply A
  pub in_flight : Bytes → ℕ → Option (CacheEntry A × ℕ)

-- Resolve returns when the deadline of its context passes.
pub record DnsLaws (A : Type 0) (dns : Dns A) : Type 0 where
  pub resolve_timely : (a : A) (t : ℕ) → (dns.resolve a t).took ≤ lookup_timeout
  pub in_flight_timely :
      (k : Bytes) (t : ℕ) (e : CacheEntry A) (d : ℕ)
      → dns.in_flight k t ≡ some (e, d)
      → d ≤ lookup_timeout

-- The resolver's cache, the clock, and the counter dnsaddr_resolutions by its labels.
pub record World (C : Type 0) : Type 0 where
  pub now : ℕ
  pub cache : C
  pub hits : ℕ
  pub resolves : ℕ
  pub empties : ℕ
  pub failures : ℕ
  pub throttles : ℕ

-- The DNS queries made: each is counted as resolved, empty or failed.
abbrev pub queries : {C : Type 0} → World C → ℕ
queries w = w.resolves + w.empties + w.failures

-- What one record's expansion shares: the room that is left in the record, the lookups that are
-- left in the request's dnsAddrBudget, and the resolver.
pub record State (C : Type 0) : Type 0 where
  pub room : ℕ
  pub lookups : ℕ
  pub world : World C
