-- ===== src/Routers/Compose.antt =====
-- server_routers.go: composableRouter and parallelRouter, and server.go: combineRouters.
use someguy.Prelude.{
  ◌≡◌, refl, ◌⊎◌, inl, inr, Bool, true, false, Option, none, some, List, [], ◌∷◌, ◌++◌,
}
use someguy.Records.{GoError, not_found, not_supported, join_errors}
use someguy.DnsAddr.Mode.{DnsAddrResolution, never_mode}

-- What a method of a router returns: a value, or an error that is not nil.
pub data Fallible (T : Type 0) : Type 0 where
  ok : T → Fallible T
  fails : GoError → Fallible T

pub Fallible-cases :
    {T : Type 0} (x : Fallible T) → ((t : T) × (x ≡ ok t)) ⊎ ((e : GoError) × (x ≡ fails e))
Fallible-cases (ok t) = inl (t, refl)
Fallible-cases (fails e) = inr (e, refl)

-- A missing router of a composableRouter, by method. `empty` is the iterator over no results.
unfoldable pub or_empty : {R I : Type 0} → I → (R → Fallible I) → Option R → Fallible I
or_empty empty call none = ok empty
or_empty empty call (some r) = call r

unfoldable pub or_not_supported : {R I : Type 0} → (R → Fallible I) → Option R → Fallible I
or_not_supported call none = fails not_supported
or_not_supported call (some r) = call r

unfoldable pub or_not_found : {R I : Type 0} → (R → Fallible I) → Option R → Fallible I
or_not_found call none = fails not_found
or_not_found call (some r) = call r

unfoldable pub or_done : {R : Type 0} → (R → Option GoError) → Option R → Option GoError
or_done call none = none
or_done call (some r) = call r

-- What `find` makes of the iterators of its routers: none, the only one, or a manyIter.
pub data Merged (I : Type 0) : Type 0 where
  no_results : Merged I
  single : I → Merged I
  many : List I → Merged I

module _ {R I : Type 0} (call : R → Fallible I) where
  -- The loop over the routers.
  unfoldable pub gather : List R → List I → Option GoError → List I × Option GoError
  unfolding join_errors
  gather [] its err = (its, err)
  gather (r ∷ rs) its err = elim (call r) [
    | ok it ↦ gather rs (its ++ (it ∷ [])) err
    | fails e ↦ gather rs its (join_errors err (some e))
  ]

  -- After the loop. Without an iterator and without an error the result would be nil and nil.
  unfoldable pub merge : List I × Option GoError → Fallible (Merged I)
  merge ([], none) = ok (many [])
  merge ([], some e) = fails e
  merge (it ∷ its, err) = ok (many (it ∷ its))

  unfoldable pub find : List R → Fallible (Merged I)
  unfolding gather merge
  find [] = ok no_results
  find (r ∷ []) = elim (call r) [ ok it ↦ ok (single it) | fails e ↦ fails e ]
  find (r ∷ s ∷ rs) = merge (gather (r ∷ s ∷ rs) [] none)

-- PutIPNS of parallelRouter: every router is asked, and the errors are joined in the routers' order.
unfoldable pub join_all :
    {R : Type 0} → (R → Option GoError) → List R → Option GoError → Option GoError
unfolding join_errors
join_all call [] errs = errs
join_all call (r ∷ rs) errs = join_all call rs (join_errors errs (call r))

unfoldable pub put_ipns : {R : Type 0} → (R → Option GoError) → List R → Option GoError
unfolding join_all
put_ipns call [] = none
put_ipns call (r ∷ []) = call r
put_ipns call (r ∷ s ∷ rs) = join_all call (r ∷ s ∷ rs) none

-- A router that parallelRouter asks: one that was given, or the DHT behind a sanitizeRouter,
-- with or without a cachedRouter between them.
pub data Child (X : Type 0) : Type 0 where
  given : X → Child X
  sanitized_dht : (cached : Bool) → Child X

pub data Composed (X : Type 0) : Type 0 where
  no_router : Composed X
  only : Child X → Composed X
  parallel : List (Child X) → Composed X

-- withDNSAddrResolution; the Bool says whether a dnsAddrRouter stands in front.
unfoldable pub with_dns_addr_resolution :
    {X : Type 0} → Composed X → Bool → DnsAddrResolution → Bool × Composed X
with_dns_addr_resolution c false mode = (false, c)
with_dns_addr_resolution c true never_mode = (false, c)
with_dns_addr_resolution c true mode = (true, c)

abbrev pub dht_child : {X : Type 0} → Bool → Bool → Option (Child X)
dht_child true has_dht = some (sanitized_dht true)
dht_child false true = some (sanitized_dht false)
dht_child false false = none

abbrev pub given_all : {X : Type 0} → List X → List (Child X)
given_all [] = []
given_all (x ∷ xs) = given x ∷ given_all xs

abbrev pub optional : {X : Type 0} → Option (Child X) → List (Child X)
optional none = []
optional (some c) = c ∷ []

unfoldable pub combine_routers :
    {X : Type 0}
    → (has_cache has_dht : Bool) → List X
    → List X
    → (has_resolver : Bool) → DnsAddrResolution
    → Bool × Composed X
unfolding with_dns_addr_resolution
combine_routers has_cache has_dht [] [] has_resolver mode = elim (dht_child has_cache has_dht) [
  | none ↦ (false, no_router)
  | some c ↦ with_dns_addr_resolution (only c) has_resolver mode
]
combine_routers has_cache has_dht delegated additional has_resolver mode =
    with_dns_addr_resolution
      (parallel
        (given_all delegated ++ optional (dht_child has_cache has_dht) ++ given_all additional))
      has_resolver mode
