-- ===== src/Cli/Flags.antt =====
-- The flags of the commands `start` and `ask` of main.go, and what the action of `start` reads of them.
-- urfave/cli takes a flag's value from the command line or the environment, as the flag's type.
pub mod Typed
use someguy.Prelude.{ℕ, ◌*◌, Bool, true, false, Option, none, some, List, [], ◌∷◌, if◌then◌else◌}
use someguy.Prelude.Bytes.{Bytes, codes, same}
use someguy.Prelude.Int.{ℤ, pos, negsuc}
use someguy.Context.{minute, hour}
use someguy.Server.{default_routing_timeout}
use someguy.CachedAddrBook.Types.{max_concurrent_find_peers}

-- A flag's value, by the flag's type. Durations are nanoseconds; a fraction is a float64, of which
-- only 0 is told apart.
pub data FlagValue : Type 0 where
  text : Bytes → FlagValue
  truth : Bool → FlagValue
  number duration : ℤ → FlagValue
  texts : List Bytes → FlagValue
  size : ℕ → FlagValue
  fraction : (is_zero : Bool) → FlagValue

pub data FlagKind : Type 0 where
  text_kind truth_kind number_kind duration_kind texts_kind size_kind fraction_kind : FlagKind

abbrev pub kind_of : FlagValue → FlagKind
kind_of (text s) = text_kind
kind_of (truth b) = truth_kind
kind_of (number n) = number_kind
kind_of (duration d) = duration_kind
kind_of (texts ss) = texts_kind
kind_of (size n) = size_kind
kind_of (fraction b) = fraction_kind

pub record Flag : Type 0 where
  pub name : Bytes
  pub env_vars : List Bytes
  pub value : FlagValue

abbrev flag : Bytes → Bytes → FlagValue → Flag
flag name env value = record { name = name; env_vars = env ∷ []; value = value }

abbrev default_listen_addrs : List Bytes
default_listen_addrs =
    codes "/ip4/0.0.0.0/tcp/4004"
    ∷ codes "/ip4/0.0.0.0/udp/4004/quic-v1"
    ∷ codes "/ip4/0.0.0.0/udp/4004/webrtc-direct"
    ∷ codes "/ip4/0.0.0.0/udp/4004/quic-v1/webtransport"
    ∷ codes "/ip6/::/tcp/4004"
    ∷ codes "/ip6/::/udp/4004/quic-v1"
    ∷ codes "/ip6/::/udp/4004/webrtc-direct"
    ∷ codes "/ip6/::/udp/4004/quic-v1/webtransport"
    ∷ []

-- The flags that both commands have.
abbrev autoconf_flags : List Flag
autoconf_flags =
    flag (codes "datadir") (codes "SOMEGUY_DATADIR") (text [])
    ∷ flag (codes "autoconf") (codes "SOMEGUY_AUTOCONF") (truth true)
    ∷ flag (codes "autoconf-url") (codes "SOMEGUY_AUTOCONF_URL")
        (text (codes "https://conf.ipfs-mainnet.org/autoconf.json"))
    ∷ flag (codes "autoconf-refresh") (codes "SOMEGUY_AUTOCONF_REFRESH")
        (duration (pos (24 * hour)))
    ∷ []

-- `auto` is autoconf.AutoPlaceholder, and `recent_ttl` the validity of provider records in the DHT.
unfoldable pub start_flags : (auto : Bytes) (recent_ttl : ℤ) → List Flag
start_flags auto recent_ttl =
    flag (codes "listen-address") (codes "SOMEGUY_LISTEN_ADDRESS") (text (codes "127.0.0.1:8190"))
    ∷ flag (codes "dht") (codes "SOMEGUY_DHT") (text (codes "accelerated"))
    ∷ flag (codes "cached-addr-book") (codes "SOMEGUY_CACHED_ADDR_BOOK") (truth true)
    ∷ flag (codes "cached-addr-book-active-probing")
        (codes "SOMEGUY_CACHED_ADDR_BOOK_ACTIVE_PROBING") (truth true)
    ∷ flag (codes "cached-addr-book-recent-ttl") (codes "SOMEGUY_CACHED_ADDR_BOOK_RECENT_TTL")
        (duration recent_ttl)
    ∷ flag (codes "cached-addr-book-max-concurrent-find-peers")
        (codes "SOMEGUY_CACHED_ADDR_BOOK_MAX_CONCURRENT_FIND_PEERS")
        (number (pos max_concurrent_find_peers))
    ∷ flag (codes "dnsaddr-resolution") (codes "SOMEGUY_DNSADDR_RESOLUTION") (text (codes "append"))
    ∷ flag (codes "routing-timeout") (codes "SOMEGUY_ROUTING_TIMEOUT")
        (duration (pos default_routing_timeout))
    ∷ flag (codes "records-limit") (codes "SOMEGUY_RECORDS_LIMIT") (number (pos 100))
    ∷ flag (codes "streaming-records-limit") (codes "SOMEGUY_STREAMING_RECORDS_LIMIT")
        (number (pos 1000))
    ∷ flag (codes "provider-endpoints") (codes "SOMEGUY_PROVIDER_ENDPOINTS") (texts (auto ∷ []))
    ∷ flag (codes "http-block-provider-endpoints") (codes "SOMEGUY_HTTP_BLOCK_PROVIDER_ENDPOINTS")
        (texts [])
    ∷ flag (codes "http-block-provider-peerids") (codes "SOMEGUY_HTTP_BLOCK_PROVIDER_PEERIDS")
        (texts [])
    ∷ flag (codes "peer-endpoints") (codes "SOMEGUY_PEER_ENDPOINTS") (texts (auto ∷ []))
    ∷ flag (codes "ipns-endpoints") (codes "SOMEGUY_IPNS_ENDPOINTS") (texts (auto ∷ []))
    ∷ flag (codes "libp2p-listen-addrs") (codes "SOMEGUY_LIBP2P_LISTEN_ADDRS")
        (texts default_listen_addrs)
    ∷ flag (codes "libp2p-connmgr-low") (codes "SOMEGUY_LIBP2P_CONNMGR_LOW") (number (pos 100))
    ∷ flag (codes "libp2p-connmgr-high") (codes "SOMEGUY_LIBP2P_CONNMGR_HIGH") (number (pos 3000))
    ∷ flag (codes "libp2p-connmgr-grace") (codes "SOMEGUY_LIBP2P_CONNMGR_GRACE_PERIOD")
        (duration (pos minute))
    ∷ flag (codes "libp2p-max-memory") (codes "SOMEGUY_LIBP2P_MAX_MEMORY") (size 0)
    ∷ flag (codes "libp2p-max-fd") (codes "SOMEGUY_LIBP2P_MAX_FD") (size 0)
    ∷ flag (codes "tracing-auth") (codes "SOMEGUY_TRACING_AUTH") (text [])
    ∷ flag (codes "sampling-fraction") (codes "SOMEGUY_SAMPLING_FRACTION") (fraction true)
    ∷ autoconf_flags

unfoldable pub ask_flags : (auto : Bytes) → List Flag
ask_flags auto =
    record { name = codes "endpoint"; env_vars = []; value = text auto }
    ∷ record { name = codes "pretty"; env_vars = []; value = truth false }
    ∷ autoconf_flags

unfoldable pub declared : Bytes → List Flag → Option Flag
unfolding same
declared name [] = none
declared name (f ∷ fs) = let rest = declared name fs in if same f.name name then some f else rest

-- What is read of a flag: the value that was given for it, or its default.
abbrev value_of : Option FlagValue → Flag → FlagValue
value_of (some v) f = v
value_of none f = f.value

unfoldable pub read : (Bytes → Option FlagValue) → Bytes → List Flag → Option FlagValue
unfolding declared
read given name flags = elim (declared name flags) [
  | none ↦ none
  | some f ↦ some (value_of (given name) f)
]

-- The flags that the action of `start` reads, with the types that it reads them at. The number of file
-- descriptors is read as an int of a flag of type uint64.
unfoldable pub start_reads : List (Bytes × FlagKind)
start_reads =
    (codes "records-limit", number_kind)
    ∷ (codes "streaming-records-limit", number_kind)
    ∷ (codes "dnsaddr-resolution", text_kind)
    ∷ (codes "listen-address", text_kind)
    ∷ (codes "dht", text_kind)
    ∷ (codes "cached-addr-book", truth_kind)
    ∷ (codes "cached-addr-book-active-probing", truth_kind)
    ∷ (codes "cached-addr-book-recent-ttl", duration_kind)
    ∷ (codes "cached-addr-book-max-concurrent-find-peers", number_kind)
    ∷ (codes "routing-timeout", duration_kind)
    ∷ (codes "provider-endpoints", texts_kind)
    ∷ (codes "peer-endpoints", texts_kind)
    ∷ (codes "ipns-endpoints", texts_kind)
    ∷ (codes "http-block-provider-endpoints", texts_kind)
    ∷ (codes "http-block-provider-peerids", texts_kind)
    ∷ (codes "libp2p-listen-addrs", texts_kind)
    ∷ (codes "libp2p-connmgr-low", number_kind)
    ∷ (codes "libp2p-connmgr-high", number_kind)
    ∷ (codes "libp2p-connmgr-grace", duration_kind)
    ∷ (codes "libp2p-max-memory", size_kind)
    ∷ (codes "libp2p-max-fd", number_kind)
    ∷ (codes "tracing-auth", text_kind)
    ∷ (codes "sampling-fraction", fraction_kind)
    ∷ (codes "autoconf", truth_kind)
    ∷ (codes "autoconf-url", text_kind)
    ∷ (codes "autoconf-refresh", duration_kind)
    ∷ (codes "datadir", text_kind)
    ∷ []

-- The same of the actions of `ask`.
unfoldable pub ask_reads : List (Bytes × FlagKind)
ask_reads =
    (codes "endpoint", text_kind)
    ∷ (codes "pretty", truth_kind)
    ∷ (codes "autoconf", truth_kind)
    ∷ (codes "autoconf-url", text_kind)
    ∷ (codes "autoconf-refresh", duration_kind)
    ∷ (codes "datadir", text_kind)
    ∷ []
