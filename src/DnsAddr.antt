-- ===== src/DnsAddr.antt =====
-- dnsaddr.go: the modes of /dnsaddr resolution, the cache key, the resolver with its cache and
-- budget, and the expansion of records. The proofs are in the children.
pub mod Mode
pub mod Host
pub mod Types
pub mod Lookup
pub mod Expand
pub mod Bounds
pub mod Router
pub mod Response
pub mod Public
pub mod Contents
pub mod Caching
