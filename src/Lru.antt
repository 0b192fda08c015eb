-- ===== src/Lru.antt =====
-- The interface of hashicorp/golang-lru, which holds the peer states of cached_addr_book.go and the
-- resolved names of dnsaddr.go. The library is not part of the repository: a cache is a parameter,
-- and what the program relies on are the laws below.
use someguy.Prelude.{ℕ, Option, none, some, ◌≡◌, ◌≢◌, ◌⊎◌}

pub record Lru (C K V : Type 0) : Type 0 where
  -- Get also marks the key as recently used; Peek does not.
  pub get : C → K → Option V × C
  pub peek : C → K → Option V
  -- Add may evict the least recently used other key.
  pub add : C → K → V → C
  pub remove : C → K → C
  pub len : C → ℕ

pub record LruLaws (C K V : Type 0) (cache : Lru C K V) : Type 0 where
  pub get-peek : (c : C) (k : K) → (cache.get c k).0 ≡ cache.peek c k
  pub peek-get : (c : C) (k j : K) → cache.peek (cache.get c k).1 j ≡ cache.peek c j
  pub peek-add_self : (c : C) (k : K) (v : V) → cache.peek (cache.add c k v) k ≡ some v
  pub peek-add_ne :
      (c : C) (k j : K) (v : V)
      → k ≢ j
      → (cache.peek (cache.add c k v) j ≡ cache.peek c j) ⊎ (cache.peek (cache.add c k v) j ≡ none)
  pub peek-remove_self : (c : C) (k : K) → cache.peek (cache.remove c k) k ≡ none
  pub peek-remove_ne : (c : C) (k j : K) → k ≢ j → cache.peek (cache.remove c k) j ≡ cache.peek c j
