-- ===== src/Examples.antt =====
-- The theorems at concrete inputs, over the libraries of Samples.
pub mod Addrs
pub mod Dns
pub mod Book
pub mod Routing
pub mod Lookups
pub mod Endpoints
pub mod Autoconf
pub mod Server
pub mod Requests
pub mod Cli
pub mod Process
