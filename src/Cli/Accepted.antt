-- ===== src/Cli/Accepted.antt =====
-- The configurations that the command `start` of main.go passes on to `start` of server.go.
use someguy.Prelude.{
  ◌≡◌, ◌≢◌, refl, ◌⊎◌, inl, inr, true, false, not, ◌&&◌, Option, none, some, List, [], ◌∷◌, length,
  is_empty, arith, Bool-cases, Option-cases,
}
use someguy.Prelude.Bytes.{Bytes}
use someguy.Prelude.Int.{ℤ, is_negative}
use someguy.Prelude.Try.{success, refused, >>=-success, Try-cases}
use someguy.Routers.Compose.{Fallible, Fallible-cases}
use someguy.DnsAddr.Mode.{DnsAddrResolution, parse_dns_addr_resolution}
use someguy.BlockRouter.{Platform, new_http_block_router}
use someguy.Server.{
  ServerConfig, peer_ids_mismatch, make_block_provider_routers, block_provider_loop,
}
use someguy.Cli.{limit, mode_of, generate_peer_ids, block_provider_ids, start_config}

limit-success : (n k : ℤ) → limit n ≡ success k → (k ≡ n) × (is_negative n ≡ false)
limit-success n k h = (ground arith, ground arith)

mode_of-success :
    (s : Bytes) (mode : DnsAddrResolution)
    → mode_of s ≡ success mode
    → parse_dns_addr_resolution s ≡ some mode
mode_of-success s mode h = ground arith

generate_peer_ids-length :
    (synthetic_peer_id : Bytes → Fallible Bytes) (endpoints ids : List Bytes)
    → generate_peer_ids synthetic_peer_id endpoints ≡ success ids
    → length ids ≡ length endpoints
unfolding generate_peer_ids
generate_peer_ids-length f [] ids h = ground arith
generate_peer_ids-length f (endpoint ∷ endpoints) ids h = elim (Fallible-cases (f endpoint)) [
  | inr (e, q) ↦ absurd (ground arith)
  | inl (id, q) ↦
      let (rest, made, all) =
        >>=-success (generate_peer_ids f endpoints) (λ ids. success (id ∷ ids)) ids
          (ground (arith, h)) in
      ground (arith, generate_peer_ids-length f endpoints rest made, all)
]

-- Peer IDs are those that were given, or one was made for each endpoint.
block_provider_ids-cases :
    (synthetic_peer_id : Bytes → Fallible Bytes) (endpoints given ids : List Bytes)
    → block_provider_ids synthetic_peer_id endpoints given ≡ success ids
    → ((ids ≡ given) × ((is_empty given ≡ false) ⊎ (is_empty endpoints ≡ true)))
      ⊎ (length ids ≡ length endpoints)
unfolding block_provider_ids
block_provider_ids-cases f endpoints given ids h =
    elim (Bool-cases (not (is_empty endpoints) && is_empty given)) [
      | inl e ↦ inr (generate_peer_ids-length f endpoints ids (ground arith))
      | inr e ↦ inl (ground arith, ground arith)
    ]

-- What the flags and the configuration made of them have to do with each other.
pub record IsAccepted (dnsaddr_resolution : Bytes) (flags cfg : ServerConfig) : Type 0 where
  pub records_limit :
      (cfg.records_limit ≡ flags.records_limit) × (is_negative cfg.records_limit ≡ false)
  pub streaming_records_limit :
      (cfg.streaming_records_limit ≡ flags.streaming_records_limit)
      × (is_negative cfg.streaming_records_limit ≡ false)
  pub mode : parse_dns_addr_resolution dnsaddr_resolution ≡ some cfg.dns_addr_resolution
  pub block_providers :
      (is_empty flags.block_provider_peer_ids ≡ false)
      ⊎ (is_empty cfg.block_provider_endpoints ≡ true)
      ⊎ (length cfg.block_provider_peer_ids ≡ length cfg.block_provider_endpoints)
  pub endpoints : cfg.endpoints ≡ flags.endpoints

start_config-IsAccepted :
    (synthetic_peer_id : Bytes → Fallible Bytes) (dnsaddr_resolution : Bytes)
    (flags cfg : ServerConfig)
    → start_config synthetic_peer_id dnsaddr_resolution flags ≡ success cfg
    → IsAccepted dnsaddr_resolution flags cfg
unfolding start_config
start_config-IsAccepted f s flags cfg h =
    let (limit1, made1, h1) = >>=-success (limit flags.records_limit) _ cfg h in
    let (limit2, made2, h2) = >>=-success (limit flags.streaming_records_limit) _ cfg h1 in
    let (mode, made_mode, h3) = >>=-success (mode_of s) _ cfg h2 in
    let (ids, made_ids, h4) =
      >>=-success
        (block_provider_ids f flags.block_provider_endpoints flags.block_provider_peer_ids) _ cfg
        h3 in
    let (same1, positive1) = limit-success flags.records_limit limit1 made1 in
    let (same2, positive2) = limit-success flags.streaming_records_limit limit2 made2 in
    let cases =
      block_provider_ids-cases f flags.block_provider_endpoints flags.block_provider_peer_ids ids
        made_ids in
    let made : cfg ≡ record flags { dns_addr_resolution = mode; block_provider_peer_ids = ids } =
      ground (arith, h4) in
    rw made (record {
      records_limit = (refl, positive1);
      streaming_records_limit = (refl, positive2);
      mode = mode_of-success s mode made_mode;
      block_providers = elim cases [
        | inl (same, inl some_given) ↦ inl some_given
        | inl (same, inr none_needed) ↦ inr (inl none_needed)
        | inr one_each ↦ inr (inr one_each)
      ];
      endpoints = refl;
    })

module _ {A : Type 0} (platform : Platform A) (decode_peer : Bytes → Option Bytes) where
  block_provider_loop-matched :
      (endpoints ids : List Bytes)
      → block_provider_loop platform decode_peer endpoints ids ≢ refused peer_ids_mismatch
  unfolding block_provider_loop
  block_provider_loop-matched [] ids = ground arith
  block_provider_loop-matched (endpoint ∷ endpoints) [] = ground arith
  block_provider_loop-matched (endpoint ∷ endpoints) (id ∷ ids) =
      elim (Option-cases (decode_peer id)) [
        | inl n ↦ ground arith
        | inr (p, q) ↦ elim (Try-cases (new_http_block_router platform endpoint p none)) [
          | inl (e, made) ↦ ground arith
          | inr (r, made) ↦
              elim (Try-cases (block_provider_loop platform decode_peer endpoints ids)) [
                | inl (e, rest) ↦ ground (arith, block_provider_loop-matched endpoints ids)
                | inr (rs, rest) ↦ ground arith
              ]
        ]
      ]

  matched :
      (cfg : ServerConfig)
      → length cfg.block_provider_peer_ids ≡ length cfg.block_provider_endpoints
      → make_block_provider_routers platform decode_peer cfg ≢ refused peer_ids_mismatch
  unfolding make_block_provider_routers
  matched cfg h = ground (
    arith,
    h,
    block_provider_loop-matched cfg.block_provider_endpoints cfg.block_provider_peer_ids,
  )

  none_needed :
      (cfg : ServerConfig)
      → is_empty cfg.block_provider_endpoints ≡ true
      → make_block_provider_routers platform decode_peer cfg ≢ refused peer_ids_mismatch
  unfolding make_block_provider_routers
  none_needed cfg h = ground (arith, h)

  -- A configuration that the command start passes on has the limits of the flags, which are
  -- not negative, and the mode of the flag; and if no peer IDs were given, the server does not
  -- stop because their number differs from that of the block providers.
  start_config_lem :
      (synthetic_peer_id : Bytes → Fallible Bytes) (dnsaddr_resolution : Bytes)
      (flags cfg : ServerConfig)
      → start_config synthetic_peer_id dnsaddr_resolution flags ≡ success cfg
      → IsAccepted dnsaddr_resolution flags cfg
        × ((is_empty flags.block_provider_peer_ids ≡ false)
            ⊎ (make_block_provider_routers platform decode_peer cfg ≢ refused peer_ids_mismatch))
  start_config_lem f s flags cfg h =
      let accepted = start_config-IsAccepted f s flags cfg h in
      (
        accepted,
        elim accepted.block_providers [
          | inl some_given ↦ inl some_given
          | inr (inl empty) ↦ inr (none_needed cfg empty)
          | inr (inr one_each) ↦ inr (matched cfg one_each)
        ],
      )
