-- ===== src/Autoconf/Dedup.antt =====
-- deduplicateEndpoints of autoconf.go.
use someguy.Prelude.{
  ◌≡◌, refl, ap, ◌∙◌, sym, ◌↔◌, inl, inr, Bool, true, false, ◌||◌, List, [], ◌∷◌, All, All-imp,
  arith, Bool-cases,
}
use someguy.Prelude.Bytes.{
  Bytes, same, same_iff, bytes_compare, bytes_compare_antisymm, bytes_compare_asymm,
  bytes_compare_trans,
}
use someguy.Prelude.Suffix.{same_refl}
use someguy.Prelude.Sort.{before, insert, sort_func, IsSorted, IsOrder, sort_func-IsSorted}
use someguy.Autoconf.{contains, compact, deduplicate_endpoints}

abbrev less : Bytes → Bytes → Bool
less = before bytes_compare

bytes_compare-IsOrder : IsOrder bytes_compare
bytes_compare-IsOrder = record {
  asymm = bytes_compare_asymm;
  trans = bytes_compare_trans;
  antisymm = bytes_compare_antisymm;
}

contains-insert :
    (u x : Bytes) (l : List Bytes)
    → contains u (insert bytes_compare x l) ≡ (same u x || contains u l)
unfolding contains insert
contains-insert u x [] = refl
contains-insert u x (y ∷ l) = ground (arith, contains-insert u x l)

contains-sort_func :
    (u : Bytes) (l : List Bytes) → contains u (sort_func bytes_compare l) ≡ contains u l
unfolding contains sort_func
contains-sort_func u [] = refl
contains-sort_func u (x ∷ l) =
    ground (arith, contains-insert u x (sort_func bytes_compare l), contains-sort_func u l)

contains-compact : (u : Bytes) (l : List Bytes) → contains u (compact l) ≡ contains u l
unfolding contains compact
contains-compact u [] = refl
contains-compact u (x ∷ []) = refl
contains-compact u (x ∷ y ∷ l) = ground (arith, same_iff x y, contains-compact u (y ∷ l))

-- deduplicateEndpoints keeps every endpoint, and adds none.
pub contains-deduplicate_endpoints :
    (u : Bytes) (l : List Bytes) → contains u (deduplicate_endpoints l) ≡ contains u l
unfolding deduplicate_endpoints
contains-deduplicate_endpoints u l =
    ground (arith, contains-compact u (sort_func bytes_compare l), contains-sort_func u l)

-- Every item is before all later ones.
abbrev pub IsAscending : List Bytes → Type 0
IsAscending [] = Unit
IsAscending (x ∷ l) = All (λ y. less x y ≡ true) l × IsAscending l

compact-All {κ} : (P : Bytes → Type κ) (l : List Bytes) → All P l → All P (compact l)
unfolding compact
compact-All P [] h = tt
compact-All P (x ∷ []) h = h
compact-All P (x ∷ y ∷ l) h = elim (Bool-cases (same x y)) [
  | inl e ↦ rw (e, compact) (compact-All P (y ∷ l) h.1)
  | inr e ↦ rw (e, compact) (h.0, compact-All P (y ∷ l) h.1)
]

less_of : (x y : Bytes) → less y x ≡ false → same x y ≡ false → less x y ≡ true
less_of x y h n = ground (arith, bytes_compare_antisymm x y, same_iff x y)

less_before : (x y z : Bytes) → less x y ≡ true → less z y ≡ false → less x z ≡ true
less_before x y z h k = ground (
  arith,
  bytes_compare_antisymm x z,
  bytes_compare_antisymm z y,
  bytes_compare_trans x y z,
  bytes_compare_trans z x y,
  bytes_compare_antisymm y z,
)

compact-IsAscending : (l : List Bytes) → IsSorted bytes_compare l → IsAscending (compact l)
unfolding compact
compact-IsAscending [] s = tt
compact-IsAscending (x ∷ []) s = (tt, tt)
compact-IsAscending (x ∷ y ∷ l) s = elim (Bool-cases (same x y)) [
  | inl e ↦ rw (e, compact) (compact-IsAscending (y ∷ l) s.1)
  | inr e ↦
      let lt = less_of x y s.0.0 e in
      rw (e, compact)
        (
          compact-All (λ z. less x z ≡ true) (y ∷ l)
              (lt, All-imp _ _ l (λ z h. less_before x y z lt h) s.1.0),
          compact-IsAscending (y ∷ l) s.1,
        )
]

deduplicate_endpoints-IsAscending : (l : List Bytes) → IsAscending (deduplicate_endpoints l)
unfolding deduplicate_endpoints
deduplicate_endpoints-IsAscending [] = tt
deduplicate_endpoints-IsAscending (x ∷ l) =
    compact-IsAscending (sort_func bytes_compare (x ∷ l))
      (sort_func-IsSorted bytes_compare bytes_compare-IsOrder (x ∷ l))

ascending_not_contains :
    (x : Bytes) (l : List Bytes) → All (λ y. less x y ≡ true) l → contains x l ≡ false
unfolding contains
ascending_not_contains x [] h = refl
ascending_not_contains x (y ∷ l) h =
    ground (arith, bytes_compare_asymm x y, same_iff x y, ascending_not_contains x l h.1)

-- What stands in a list is after everything that the list is after.
contains-less :
    (x u : Bytes) (l : List Bytes)
    → All (λ y. less x y ≡ true) l
    → contains u l ≡ true
    → less x u ≡ true
unfolding contains
contains-less x u [] h c = absurd (ground arith)
contains-less x u (y ∷ l) h c = ground (arith, same_iff u y, contains-less x u l h.1)

ascending_heads :
    (x y : Bytes) (l m : List Bytes)
    → All (λ z. less x z ≡ true) l
    → All (λ z. less y z ≡ true) m
    → contains x (x ∷ l) ≡ contains x (y ∷ m)
    → contains y (x ∷ l) ≡ contains y (y ∷ m)
    → x ≡ y
unfolding contains
ascending_heads x y l m a b h k = ground (
  arith,
  same_iff x y,
  same_iff y x,
  same_refl x,
  same_refl y,
  contains-less x y l a,
  contains-less y x m b,
  bytes_compare_asymm x y,
)

ascending_tails :
    (x u : Bytes) (l m : List Bytes)
    → All (λ z. less x z ≡ true) l
    → All (λ z. less x z ≡ true) m
    → contains u (x ∷ l) ≡ contains u (x ∷ m)
    → contains u l ≡ contains u m
unfolding contains
ascending_tails x u l m a b h =
    ground (arith, same_iff u x, ascending_not_contains x l a, ascending_not_contains x m b)

-- The ascending list of given endpoints is unique.
ascending_unique :
    (l m : List Bytes)
    → IsAscending l
    → IsAscending m
    → ((u : Bytes) → contains u l ≡ contains u m)
    → l ≡ m
unfolding contains
ascending_unique [] [] a b h = refl
ascending_unique [] (y ∷ m) a b h = absurd (ground (arith, h y, same_refl y))
ascending_unique (x ∷ l) [] a b h = absurd (ground (arith, h x, same_refl x))
ascending_unique (x ∷ l) (y ∷ m) a b h =
    let e = ascending_heads x y l m a.0 b.0 (h x) (h y) in
    let b' : All (λ z. less x z ≡ true) m = rw e b.0 in
    let tails : (u : Bytes) → contains u l ≡ contains u m =
      λ u. ascending_tails x u l m a.0 b' (h u ∙ rw e) in
    cc (e, ascending_unique l m a.1 b.1 tails)

-- deduplicateEndpoints gives the same list for two lists just when they hold the same endpoints, in
-- whatever order and however often: its result stands for the set of endpoints. The result is
-- in ascending order, without repetition.
pub deduplicate_endpoints-canonical :
    (l m : List Bytes)
    → IsAscending (deduplicate_endpoints l)
      × ((deduplicate_endpoints l ≡ deduplicate_endpoints m)
          ↔ ((u : Bytes) → contains u l ≡ contains u m))
deduplicate_endpoints-canonical l m = (
  deduplicate_endpoints-IsAscending l,
  (
    λ h u.
        sym (contains-deduplicate_endpoints u l)
        ∙ ap (contains u) h
        ∙ contains-deduplicate_endpoints u m,
    λ h.
        ascending_unique (deduplicate_endpoints l) (deduplicate_endpoints m)
          (deduplicate_endpoints-IsAscending l) (deduplicate_endpoints-IsAscending m)
          (λ u.
            contains-deduplicate_endpoints u l ∙ h u ∙ sym (contains-deduplicate_endpoints u m)),
  ),
)
