-- ===== src/Routers.antt =====
-- server_routers.go: the routers that are composed to answer a request.
pub mod Compose
pub mod Ipns
pub mod Sanitize
pub mod Libp2p
pub mod Found
pub mod Race
pub mod Many
pub mod Workers
pub mod Bundled
