-- ===== src/Lib.antt =====
-- someguy is an HTTP server for delegated routing: it answers lookups of content providers, of peers and
-- of IPNS records from the Amino DHT and from other routers. This library models the logic between
-- the HTTP server and the networks: what is asked of which router, and what happens to the addresses
-- in the answers; how a server is put together from its configuration; and the commands of the
-- client.
--
-- The parts, from the command line inward:
-- - Cli: the actions of the commands start and ask (main.go). Cli.Ask is ask with its subcommands and
--   parseKey, Cli.Endpoint what they make of --endpoint, Cli.Accepted what start passes on, and Cli.Flags
--   the tables of flags with what the actions read of them. They call Server and Client.
-- - Client: what the client commands print and return (client.go).
-- - Server: the start of a server (server.go). Server has the steps, Server.Start `start` in their order
--   up to the listening server, with the routers behind each endpoint, Server.Host newHost,
--   Server.Headers withTracingAndDebug, which Server.Middleware puts around the routers with the other
--   handlers, and Server.Shutdown the end of `start`, from the listening server to the return, as
--   events in the order in which they happen. Server.Serves is about what such a server serves, with
--   Server.Steps, Server.Combined and Server.Blocks before it. Server.Requests takes the requests of
--   the HTTP API through the routers of a started server: an abstract answer stands for each HTTP
--   endpoint, each gateway and the DHT, and Routers composes them.
-- - Autoconf: the endpoints of a configuration, checked, expanded and reduced to base URLs, and the
--   bootstrap peers (autoconf.go). Its theorems are in Autoconf.Normalize, Autoconf.Dedup and
--   Autoconf.Expand, which joins it to Endpoints.
-- - BlockRouter: the router that asks a block gateway (http_block_router.go), in BlockRouter.Accepts
--   what it is made of, and in BlockRouter.Secure what it answers.
-- - Rcmgr: the limits of the libp2p host (rcmgr.go, internal/fd), which Server.Host gives to it.
-- - Version and Tracing: the text of the version (version.go), and the tracer provider with the spans
--   that it samples (tracing.go).
-- - Routers: the routers that are composed to answer a request (server_routers.go). Routers.Compose is
--   composableRouter, `find` and PutIPNS of parallelRouter, and combineRouters of server.go; Routers.Many
--   is manyIter, a step relation over what the children still have to yield, and Routers.Workers its
--   goroutines, wait group and channel, which Routers.Many abstracts from; Routers.Ipns is GetIPNS
--   over the order in which answers arrive; Routers.Sanitize is sanitizeRouter and Routers.Libp2p
--   libp2pRouter with peerChanIter, and Routers.Bundled bundledDHT (server_dht.go). Theorems are there
--   and in Routers.Found and Routers.Race.
-- - DnsAddr: the resolution of /dnsaddr addresses (dnsaddr.go) and the router that applies it to a
--   response (server_routers.go: dnsAddrRouter). DnsAddr.Mode is the mode of the server and the filter
--   of a request, DnsAddr.Host the address tests and the cache key, DnsAddr.Lookup one lookup with its
--   cache and budget, DnsAddr.Expand the expansion of a record's addresses, DnsAddr.Router the
--   responses, DnsAddr.Public its composition with sanitizeRouter. Recursion is structural on the
--   depth that the code allows, 4. Theorems on cost are in DnsAddr.Bounds and DnsAddr.Response, on the
--   cache in DnsAddr.Caching, and on the addresses of a record in DnsAddr.Contents: its child Sources
--   says what DNS gives for a name, Leads where a /dnsaddr leads, and Cuts what an expansion uses up.
-- - CachedRouter: the router in front of the DHT (server_cached_router.go): FindPeers, which reads
--   the cache before the walk and when its results are read, and in
--   CachedRouter.Fallback the iterator that looks up peers without addresses. A round of its loop and
--   a step of a background lookup are relations, so that every interleaving is a sequence of them;
--   CachedRouter.Reach has the states that they lead to, with other requests beside them, and
--   CachedRouter.Ends counts the steps, and CachedRouter.Drains, with CachedRouter.Progress before it, is
--   about how an iterator comes to its end.
-- - CachedAddrBook: the address book in front of the host's (cached_addr_book.go): the state of each
--   peer, the backoff of probes, the slots of background lookups, the events, and how long addresses
--   last. CachedRouter reads and fills it, and reports lookups that found nothing to it.
-- - Endpoints: the delegated HTTP routers that a server is configured with, one for each base URL
--   (server_delegated_routing.go: collectEndpoints, createDelegatedHTTPRouters).
-- - Addrs: the order of addresses in responses and the private-address filter (server_routers.go:
--   compareAddrs, sortedAddrs, addrSortRank, filterPrivateMultiaddr), and the split of relay addresses
--   (cached_addr_book.go: splitRelayAddrs).
--
-- The libraries that the program calls are parameters, as records of operations with the laws that
-- the code relies on: Multiaddr (go-multiaddr), Lru (golang-lru), Context (contexts and time),
-- AddrBook (pstoremem), in DnsAddr.Types madns and singleflight, in Routers.Ipns the IPNS records of
-- boxo, in Autoconf boxo's autoconf, in Rcmgr go-libp2p's resource manager, in BlockRouter url.Parse,
-- net.ParseIP and the HTTP client, in Server.Start the services that start calls. Samples has instances
-- that keep the laws, and Examples uses them. Records has the records, errors and iterator results of
-- boxo.
--
-- Stateful code takes its state and gives the state after it. Times and durations are nanoseconds;
-- 64-bit arithmetic keeps its wrap-around where the code relies on it or suffers from it. Fuel occurs
-- only where a caller of an iterator is modelled, with the number of calls that is enough, and in the
-- decimal digits of an int (Prelude.Decimal), where it is 20 digits, more than an int has.
--
-- Not modelled: what urfave/cli does with arguments and environment variables; opening the libp2p host
-- and the sockets of the HTTP server, and boxo's handler with its limits of records, which are calls
-- of libraries; the HTTP clients of delegated routers; metrics, but for the counts in DnsAddr.Types and
-- CachedRouter, and logging but for the lines that
-- Server.Middleware and Server.Shutdown name; the exporters of traces; init of server.go and
-- newCompressionAdapter, which only configure libraries.
pub mod AddrBook
pub mod Addrs
pub mod Autoconf
pub mod BlockRouter
pub mod CachedAddrBook
pub mod CachedRouter
pub mod Cli
pub mod Client
pub mod Context
pub mod DnsAddr
pub mod Endpoints
pub mod Examples
pub mod Lru
pub mod Multiaddr
pub mod Prelude
pub mod Rcmgr
pub mod Records
pub mod Routers
pub mod Samples
pub mod Server
pub mod Tracing
pub mod Version
