-- ===== src/Server/Blocks.antt =====
-- The block providers of a server: which router each endpoint gets.
use someguy.Prelude.{
  ◌≡◌, refl, inl, inr, true, Option, none, List, [], ◌∷◌, length, ◌==◌, is_empty, arith, Bool-cases,
  map, All, subst, sym, ==_iff,
}
use someguy.Prelude.Bytes.{Bytes}
use someguy.Prelude.Try.{Try, success, refused, >>=-success}
use someguy.BlockRouter.{Platform, HttpBlockRouter, BlockError, new_http_block_router}
use someguy.BlockRouter.Accepts.{IsGateway, new_http_block_router-IsGateway}
use someguy.Server.{
  ServerConfig, make_block_provider_routers, block_provider_loop, block_of, peer_of,
}

empty_list : {T : Type 0} (l : List T) → is_empty l ≡ true → l ≡ []
empty_list [] h = refl
empty_list (x ∷ l) h = absurd (ground arith)

module _ {A : Type 0} (platform : Platform A) (decode_peer : Bytes → Option Bytes) where
  -- A router that newHTTPBlockRouter makes of an endpoint.
  abbrev pub IsMade : HttpBlockRouter A → Type 0
  IsMade r = (p : Bytes) × IsGateway platform r.endpoint p none r

  block_of-success :
      (made : Try BlockError (HttpBlockRouter A)) (r : HttpBlockRouter A)
      → block_of made ≡ success r
      → made ≡ success r
  block_of-success (success t) r h = ground arith
  block_of-success (refused e) r h = absurd (ground arith)

  block_provider_loop-IsMade :
      (endpoints ids : List Bytes) (blocks : List (HttpBlockRouter A))
      → length ids ≡ length endpoints
      → block_provider_loop platform decode_peer endpoints ids ≡ success blocks
      → (map (λ r. r.endpoint) blocks ≡ endpoints) × All IsMade blocks
  unfolding block_provider_loop
  block_provider_loop-IsMade [] ids blocks l h =
      let none_made : blocks ≡ [] = ground (arith, h) in rw none_made (refl, tt)
  block_provider_loop-IsMade (endpoint ∷ endpoints) [] blocks l h = absurd (omega (arith, l))
  block_provider_loop-IsMade (endpoint ∷ endpoints) (id ∷ ids) blocks l h =
      let (p, _, h1) = >>=-success (peer_of decode_peer id) _ blocks h in
      let (r, made, h2) =
        >>=-success (block_of (new_http_block_router platform endpoint p none)) _ blocks h1 in
      let (rs, rest, h3) =
        >>=-success (block_provider_loop platform decode_peer endpoints ids) _ blocks h2 in
      let (asked, all) = block_provider_loop-IsMade endpoints ids rs (omega (arith, l)) rest in
      let g =
        new_http_block_router-IsGateway platform endpoint p none r
          (block_of-success (new_http_block_router platform endpoint p none) r made) in
      let made_all : blocks ≡ r ∷ rs = ground (arith, h3) in
      rw made_all
        (cc (g.asks, asked), ((p, subst (λ e. IsGateway platform e p none r) (sym g.asks) g), all))

  pub make_block_provider_routers-IsMade :
      (cfg : ServerConfig) (blocks : List (HttpBlockRouter A))
      → make_block_provider_routers platform decode_peer cfg ≡ success blocks
      → (map (λ r. r.endpoint) blocks ≡ cfg.block_provider_endpoints) × All IsMade blocks
  unfolding make_block_provider_routers
  make_block_provider_routers-IsMade cfg blocks h =
      elim (Bool-cases (is_empty cfg.block_provider_endpoints)) [
        | inl e ↦
            let none_made : blocks ≡ [] = ground arith in
            let no_endpoints : cfg.block_provider_endpoints ≡ [] =
              empty_list cfg.block_provider_endpoints e in
            rw (none_made, no_endpoints) (refl, tt)
        | inr e ↦
            elim (Bool-cases
              (length cfg.block_provider_peer_ids == length cfg.block_provider_endpoints)) [
                | inr n ↦ absurd (ground arith)
                | inl q ↦
                    block_provider_loop-IsMade cfg.block_provider_endpoints
                      cfg.block_provider_peer_ids blocks ((==_iff _ _).0 q) (ground arith)
              ]
      ]
