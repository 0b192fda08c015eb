-- ===== src/CachedAddrBook.antt =====
-- cached_addr_book.go: the cached address book. `Types` has its state, `Probing` the peer states
-- and the backoff, `Addrs` the calls on addresses, `Background` the event loop and the probe loop.
pub mod Types
pub mod Probing
pub mod Addrs
pub mod Background
pub mod Backoff
pub mod Failures
pub mod Replace
pub mod Caching
