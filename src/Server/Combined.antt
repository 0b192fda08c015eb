-- ===== src/Server/Combined.antt =====
-- What a router that combineRouters of server.go makes asks.
use someguy.DnsAddr.Mode.{
  DnsAddrResolution, append_mode, replace_mode, filtered_mode, never_mode, unset,
}
use someguy.Prelude.{
  ◌≡◌, refl, Bool, true, false, List, [], ◌∷◌, arith, ◌++◌, ◌||◌, ap, append-nil, ◌≢◌, sym, ◌∙◌,
  All, All-append,
}
use someguy.Routers.Compose.{
  Composed, Child, sanitized_dht, given, parallel, only, no_router, combine_routers,
  with_dns_addr_resolution, given_all, optional, dht_child,
}

-- What a composed router asks beside the DHT, and whether it asks the DHT.
abbrev pub upstreams_of : {X : Type 0} → List (Child X) → List X
upstreams_of [] = []
upstreams_of (given x ∷ cs) = x ∷ upstreams_of cs
upstreams_of (sanitized_dht cached ∷ cs) = upstreams_of cs

abbrev pub upstreams : {X : Type 0} → Composed X → List X
upstreams no_router = []
upstreams (only c) = upstreams_of (c ∷ [])
upstreams (parallel cs) = upstreams_of cs

abbrev pub has_dht_child : {X : Type 0} → List (Child X) → Bool
has_dht_child [] = false
has_dht_child (given x ∷ cs) = has_dht_child cs
has_dht_child (sanitized_dht cached ∷ cs) = true

abbrev pub asks_dht : {X : Type 0} → Composed X → Bool
asks_dht no_router = false
asks_dht (only c) = has_dht_child (c ∷ [])
asks_dht (parallel cs) = has_dht_child cs

upstreams_of-append :
    {X : Type 0} (cs ds : List (Child X))
    → upstreams_of (cs ++ ds) ≡ upstreams_of cs ++ upstreams_of ds
upstreams_of-append [] ds = refl
upstreams_of-append (given x ∷ cs) ds = ap (λ l. x ∷ l) (upstreams_of-append cs ds)
upstreams_of-append (sanitized_dht cached ∷ cs) ds = upstreams_of-append cs ds

upstreams_of-given_all : {X : Type 0} (xs : List X) → upstreams_of (given_all xs) ≡ xs
upstreams_of-given_all [] = refl
upstreams_of-given_all (x ∷ xs) = ap (λ l. x ∷ l) (upstreams_of-given_all xs)

has_dht_child-append :
    {X : Type 0} (cs ds : List (Child X))
    → has_dht_child (cs ++ ds) ≡ (has_dht_child cs || has_dht_child ds)
has_dht_child-append [] ds = refl
has_dht_child-append (given x ∷ cs) ds = has_dht_child-append cs ds
has_dht_child-append (sanitized_dht cached ∷ cs) ds = refl

has_dht_child-given_all : {X : Type 0} (xs : List X) → has_dht_child (given_all xs) ≡ false
has_dht_child-given_all [] = refl
has_dht_child-given_all (x ∷ xs) = has_dht_child-given_all xs

pub with_dns_addr_resolution-same :
    {X : Type 0} (c : Composed X) (has_resolver : Bool) (mode : DnsAddrResolution)
    → (with_dns_addr_resolution c has_resolver mode).1 ≡ c
unfolding with_dns_addr_resolution
with_dns_addr_resolution-same c false mode = refl
with_dns_addr_resolution-same c true append_mode = refl
with_dns_addr_resolution-same c true replace_mode = refl
with_dns_addr_resolution-same c true filtered_mode = refl
with_dns_addr_resolution-same c true never_mode = refl
with_dns_addr_resolution-same c true unset = refl

optional_dht :
    (X : Type 0) (has_book has_dht : Bool)
    → let cs = optional (dht_child {X = X} has_book has_dht) in
      (upstreams_of cs ≡ []) × (has_dht_child cs ≡ (has_book || has_dht))
optional_dht X true has_dht = (refl, refl)
optional_dht X false true = (refl, refl)
optional_dht X false false = (refl, refl)

all_children :
    {X : Type 0} (has_book has_dht : Bool) (delegated additional : List X)
    → let cs =
        given_all delegated ++ optional (dht_child has_book has_dht) ++ given_all additional in
      (upstreams_of cs ≡ delegated ++ additional) × (has_dht_child cs ≡ (has_book || has_dht))
all_children {X = X} has_book has_dht delegated additional =
    let own = optional (dht_child {X = X} has_book has_dht) in
    let (no_upstream, dht_test) = optional_dht X has_book has_dht in
    (
      cc (
        upstreams_of-append (given_all delegated ++ own) (given_all additional),
        upstreams_of-append (given_all delegated) own,
        upstreams_of-given_all delegated,
        upstreams_of-given_all additional,
        no_upstream,
        append-nil delegated,
      ),
      ground (
        arith,
        has_dht_child-append (given_all delegated ++ own) (given_all additional),
        has_dht_child-append (given_all delegated) own,
        has_dht_child-given_all delegated,
        has_dht_child-given_all additional,
        dht_test,
      ),
    )

pub combine_routers_lem :
    {X : Type 0} (has_book has_dht : Bool) (delegated additional : List X) (has_resolver : Bool)
    (mode : DnsAddrResolution)
    → let c = (combine_routers has_book has_dht delegated additional has_resolver mode).1 in
      (upstreams c ≡ delegated ++ additional) × (asks_dht c ≡ (has_book || has_dht))
unfolding combine_routers
combine_routers_lem true has_dht [] [] has_resolver mode =
    rw (with_dns_addr_resolution-same (only (sanitized_dht true)) has_resolver mode) (refl, refl)
combine_routers_lem false true [] [] has_resolver mode =
    rw (with_dns_addr_resolution-same (only (sanitized_dht false)) has_resolver mode) (refl, refl)
combine_routers_lem false false [] [] has_resolver mode = (refl, refl)
combine_routers_lem has_book has_dht (x ∷ xs) additional has_resolver mode =
    rw
      (with_dns_addr_resolution-same
        (parallel
          (given_all (x ∷ xs) ++ optional (dht_child has_book has_dht) ++ given_all additional))
        has_resolver mode)
      (all_children has_book has_dht (x ∷ xs) additional)
combine_routers_lem has_book has_dht [] (y ∷ ys) has_resolver mode =
    rw
      (with_dns_addr_resolution-same
        (parallel (given_all [] ++ optional (dht_child has_book has_dht) ++ given_all (y ∷ ys)))
        has_resolver mode)
      (all_children has_book has_dht [] (y ∷ ys))

-- The DHT is asked through a cachedRouter just when there is an address book.
abbrev pub UsesBook : {X : Type 0} → Bool → Child X → Type 0
UsesBook has_book (given x) = Unit
UsesBook has_book (sanitized_dht cached) = cached ≡ has_book

-- What combineRouters makes: nothing, the DHT alone, or a parallelRouter with a router beside the DHT.
abbrev pub IsCombined : {X : Type 0} → Bool → Composed X → Type 0
IsCombined has_book no_router = Unit
IsCombined has_book (only (given x)) = ⊥
IsCombined has_book (only (sanitized_dht cached)) = cached ≡ has_book
IsCombined has_book (parallel cs) = (upstreams_of cs ≢ []) × All (UsesBook has_book) cs

given_all-UsesBook :
    {X : Type 0} (has_book : Bool) (xs : List X) → All (UsesBook has_book) (given_all xs)
given_all-UsesBook has_book [] = tt
given_all-UsesBook has_book (x ∷ xs) = (tt, given_all-UsesBook has_book xs)

optional-UsesBook :
    (X : Type 0) (has_book has_dht : Bool)
    → All (UsesBook {X = X} has_book) (optional (dht_child has_book has_dht))
optional-UsesBook X true has_dht = (refl, tt)
optional-UsesBook X false true = (refl, tt)
optional-UsesBook X false false = tt

children-UsesBook :
    {X : Type 0} (has_book has_dht : Bool) (delegated additional : List X)
    → All
        (UsesBook has_book)
        (given_all delegated ++ optional (dht_child has_book has_dht) ++ given_all additional)
children-UsesBook {X = X} has_book has_dht delegated additional =
    let own = optional (dht_child {X = X} has_book has_dht) in
    All-append (UsesBook has_book) (given_all delegated ++ own) (given_all additional)
      (All-append (UsesBook has_book) (given_all delegated) own
        (given_all-UsesBook has_book delegated) (optional-UsesBook X has_book has_dht))
      (given_all-UsesBook has_book additional)

parallel-IsCombined :
    {X : Type 0} (has_book has_dht : Bool) (delegated additional : List X)
    → delegated ++ additional ≢ []
    → IsCombined has_book (
        parallel
          (given_all delegated ++ optional (dht_child has_book has_dht) ++ given_all additional))
parallel-IsCombined has_book has_dht delegated additional some_router = (
  λ h. some_router (sym (all_children has_book has_dht delegated additional).0 ∙ h),
  children-UsesBook has_book has_dht delegated additional,
)

pub combine_routers-IsCombined :
    {X : Type 0} (has_book has_dht : Bool) (delegated additional : List X) (has_resolver : Bool)
    (mode : DnsAddrResolution)
    → IsCombined has_book
        (combine_routers has_book has_dht delegated additional has_resolver mode).1
unfolding combine_routers
combine_routers-IsCombined true has_dht [] [] has_resolver mode =
    rw (with_dns_addr_resolution-same (only (sanitized_dht true)) has_resolver mode) refl
combine_routers-IsCombined false true [] [] has_resolver mode =
    rw (with_dns_addr_resolution-same (only (sanitized_dht false)) has_resolver mode) refl
combine_routers-IsCombined false false [] [] has_resolver mode = tt
combine_routers-IsCombined has_book has_dht (x ∷ xs) additional has_resolver mode =
    rw
      (with_dns_addr_resolution-same
        (parallel
          (given_all (x ∷ xs) ++ optional (dht_child has_book has_dht) ++ given_all additional))
        has_resolver mode)
      (parallel-IsCombined has_book has_dht (x ∷ xs) additional (ground arith))
combine_routers-IsCombined has_book has_dht [] (y ∷ ys) has_resolver mode =
    rw
      (with_dns_addr_resolution-same
        (parallel (given_all [] ++ optional (dht_child has_book has_dht) ++ given_all (y ∷ ys)))
        has_resolver mode)
      (parallel-IsCombined has_book has_dht [] (y ∷ ys) (ground arith))
