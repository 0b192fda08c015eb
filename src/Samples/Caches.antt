-- ===== src/Samples/Caches.antt =====
-- A cache that never evicts, as an association list.
use someguy.Prelude.{
  ◌≡◌, ◌≢◌, refl, inl, Option, none, some, List, [], ◌∷◌, length, arith, if◌then◌else◌,
}
use someguy.Prelude.Bytes.{Bytes, same, same_iff}
use someguy.Lru.{Lru, LruLaws}

module _ {V : Type 0} where
  unfoldable pub lookup : Bytes → List (Bytes × V) → Option V
  unfolding same
  lookup k [] = none
  lookup k ((j, v) ∷ l) = if same j k then some v else lookup k l

  unfoldable pub without : Bytes → List (Bytes × V) → List (Bytes × V)
  unfolding same
  without k [] = []
  without k ((j, v) ∷ l) = let rest = without k l in if same j k then rest else (j, v) ∷ rest

  lookup-without_self : (k : Bytes) (l : List (Bytes × V)) → lookup k (without k l) ≡ none
  unfolding lookup without
  lookup-without_self k [] = refl
  lookup-without_self k ((j, v) ∷ l) = ground (arith, lookup-without_self k l)

  lookup-without_ne :
      (k j : Bytes) (l : List (Bytes × V)) → k ≢ j → lookup j (without k l) ≡ lookup j l
  unfolding lookup without
  lookup-without_ne k j [] h = refl
  lookup-without_ne k j ((i, v) ∷ l) h =
      ground (arith, lookup-without_ne k j l, same_iff i k, same_iff i j)

  lookup-add_self : (k : Bytes) (v : V) (l : List (Bytes × V)) → lookup k ((k, v) ∷ l) ≡ some v
  unfolding lookup
  lookup-add_self k v l = ground (arith, same_iff k k)

  lookup-add_ne :
      (k j : Bytes) (v : V) (l : List (Bytes × V)) → k ≢ j → lookup j ((k, v) ∷ l) ≡ lookup j l
  unfolding lookup
  lookup-add_ne k j v l h = ground (arith, same_iff k j)

  abbrev pub list_cache : Lru (List (Bytes × V)) Bytes V
  list_cache = record {
    get = λ c k. (lookup k c, c);
    peek = λ c k. lookup k c;
    add = λ c k v. (k, v) ∷ c;
    remove = λ c k. without k c;
    len = length;
  }

  pub list_cache-laws : LruLaws (List (Bytes × V)) Bytes V list_cache
  list_cache-laws = record {
    get-peek = λ c k. refl;
    peek-get = λ c k j. refl;
    peek-add_self = λ c k v. lookup-add_self k v c;
    peek-add_ne = λ c k j v h. inl (lookup-add_ne k j v c h);
    peek-remove_self = λ c k. lookup-without_self k c;
    peek-remove_ne = λ c k j h. lookup-without_ne k j c h;
  }
