-- ===== src/Autoconf/Normalize.antt =====
-- normalizeEndpointURL and stripRoutingPaths of autoconf.go, on URLs with and without a routing path.
use someguy.Prelude.{◌≡◌, refl, inl, inr, true, false, none, some, [], ◌∷◌, ◌++◌, arith, Bool-cases}
use someguy.Prelude.Bytes.{Bytes, codes, same, cut_suffix, trim_suffix}
use someguy.Prelude.Suffix.{has_suffix, cut_suffix-append, trim_suffix-append}
use someguy.Prelude.Sort.{sort_func}
use someguy.Endpoints.{Capability, providers_capability, peers_capability, ipns_capability}
use someguy.Autoconf.{
  AutoconfLib, valid, invalid, mismatched_path, deduplicate_endpoints, strip_routing_paths,
  normalize_endpoint_url, validate_endpoint_urls, first_path,
}

module _ {F I : Type 0} (lib : AutoconfLib F I) where
  -- A URL without the routing path of its list, if it ends in that.
  abbrev pub base : Capability → Bytes → Bytes
  base k url = trim_suffix (lib.routing_path k) url

  -- The routing path of the list is what is removed: any base URL with the path comes back as it
  -- was, unless the two together read `auto`.
  pub normalize_endpoint_url-append :
      (k : Capability) (b : Bytes)
      → same (b ++ lib.routing_path k) lib.auto_placeholder ≡ false
      → normalize_endpoint_url lib k (b ++ lib.routing_path k) ≡ valid b
  unfolding normalize_endpoint_url
  normalize_endpoint_url-append k b h = rw (h, cut_suffix-append (lib.routing_path k) b)

  pub normalize_endpoint_url_valid :
      (k : Capability) (url b : Bytes)
      → same url lib.auto_placeholder ≡ false
      → normalize_endpoint_url lib k url ≡ valid b
      → b ≡ base k url
  unfolding normalize_endpoint_url trim_suffix
  normalize_endpoint_url_valid k url b h e = ground arith

  abbrev FoundPath : Bytes → Type 0
  FoundPath url =
      (path : Bytes) × (first_path lib url
          (providers_capability ∷ peers_capability ∷ ipns_capability ∷ [])
        ≡ some path)
      × (has_suffix url path ≡ true)

  any_path :
      (url : Bytes) (j : Capability) → has_suffix url (lib.routing_path j) ≡ true → FoundPath url
  any_path url j h = elim (Bool-cases (has_suffix url (lib.routing_path providers_capability))) [
    | inl p ↦ (lib.routing_path providers_capability, rw p, p)
    | inr np ↦ elim (Bool-cases (has_suffix url (lib.routing_path peers_capability))) [
      | inl q ↦ (lib.routing_path peers_capability, rw (np, q), q)
      | inr nq ↦ elim (Bool-cases (has_suffix url (lib.routing_path ipns_capability))) [
        | inl r ↦ (lib.routing_path ipns_capability, rw (np, nq, r), r)
        | inr nr ↦ absurd (ground arith)
      ]
    ]
  ]

  has_suffix-append : (s b : Bytes) → has_suffix (b ++ s) s ≡ true
  unfolding has_suffix
  has_suffix-append s b = rw (cut_suffix-append s b, has_suffix)

  normalize_first_path :
      (k : Capability) (url path : Bytes)
      → same url lib.auto_placeholder ≡ false
      → has_suffix url (lib.routing_path k) ≡ false
      → first_path lib url (providers_capability ∷ peers_capability ∷ ipns_capability ∷ [])
        ≡ some path
      → normalize_endpoint_url lib k url ≡ invalid (mismatched_path k url path)
  unfolding normalize_endpoint_url
  normalize_first_path k url path a h e = ground arith

  -- A URL that ends in a routing path, but not in the one of its list, is rejected, and the error names
  -- a routing path that the URL ends in.
  pub normalize_endpoint_url_rejects :
      (k j : Capability) (b : Bytes)
      → same (b ++ lib.routing_path j) lib.auto_placeholder ≡ false
      → has_suffix (b ++ lib.routing_path j) (lib.routing_path k) ≡ false
      → (path : Bytes) × (normalize_endpoint_url lib k (b ++ lib.routing_path j)
          ≡ invalid (mismatched_path k (b ++ lib.routing_path j) path))
        × (has_suffix (b ++ lib.routing_path j) path ≡ true)
  normalize_endpoint_url_rejects k j b h n =
      let url = b ++ lib.routing_path j in
      let (path, first, ends) = any_path url j (has_suffix-append (lib.routing_path j) b) in
      (path, normalize_first_path k url path h n first, ends)

  -- No routing path ends in a slash.
  abbrev pub EndInNoSlash : Type 0
  EndInNoSlash =
      (k : Capability) (url : Bytes) → cut_suffix (lib.routing_path k) (url ++ codes "/") ≡ none

  normalize_slash :
      (k : Capability) (b : Bytes)
      → EndInNoSlash
      → normalize_endpoint_url lib k (b ++ codes "/") ≡ valid (b ++ codes "/")
  unfolding normalize_endpoint_url has_suffix
  normalize_slash k b h =
      ground (arith, h k b, h providers_capability b, h peers_capability b, h ipns_capability b)

  -- A slash at the end hides whatever path a URL has from the check of endpoints: the URL is
  -- accepted in every list and stays as it is, also without its duplicates. stripRoutingPaths,
  -- which runs with autoconf, removes the slash and the path that it expects. No routing path
  -- ends in a slash.
  pub trailing_slash :
      (k : Capability) (b path : Bytes)
      → EndInNoSlash
      → let url = (b ++ path) ++ codes "/" in
        (validate_endpoint_urls lib k (url ∷ []) ≡ valid (url ∷ []))
        × (deduplicate_endpoints (url ∷ []) ≡ url ∷ [])
        × (strip_routing_paths (url ∷ []) path ≡ b ∷ [])
  unfolding validate_endpoint_urls deduplicate_endpoints strip_routing_paths sort_func
  trailing_slash k b path h = (
    rw (normalize_slash k (b ++ path) h),
    refl,
    rw (trim_suffix-append (codes "/") (b ++ path), trim_suffix-append path b),
  )
