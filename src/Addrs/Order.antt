-- ===== src/Addrs/Order.antt =====
-- The order of addresses (server_routers.go: compareAddrs) and the lists that are sorted by it.
use someguy.Prelude.{
  ◌≤◌, true, false, not, List, [], ◌∷◌, ◌++◌, keep, All, All-keep, All-imp, arith, ◌≡◌, refl, ap,
}
use someguy.Prelude.Bytes.{bytes_compare_antisymm, bytes_compare_asymm, bytes_compare_trans}
use someguy.Prelude.Sort.{
  sort_func, before, IsOrder, IsSorted, sort_func_of_IsSorted, sort_func-eq_of_perm, sort_func-perm,
  sort_func-IsSorted, All-sort_func,
}
use someguy.Multiaddr.{Multiaddr, EncodesUniquely}
use someguy.Addrs.{
  addr_sort_rank, compare_addrs, sorted_addrs, filter_private_multiaddr, is_relay_addr,
  split_relay_addrs,
}
use mathlib.Core.List.{Perm}
use mathlib.Core.List.Perm
use mathlib.Core.HLevel.{hedberg}
use someguy.Prelude.Keep.{perm-keep, perm_keep_not, keep_of_All}
use someguy.Prelude.Bytes.{bytes_dec}

module _ {A : Type 0} ⦃m : Multiaddr A⦄ where
  compare_addrs_asymm :
      (x y : A) → before compare_addrs x y ≡ true → before compare_addrs y x ≡ false
  unfolding compare_addrs
  compare_addrs_asymm x y h = ground (arith, bytes_compare_asymm (m.encoded x) (m.encoded y))

  compare_addrs_trans :
      (x y z : A)
      → before compare_addrs x y ≡ true
      → before compare_addrs y z ≡ true
      → before compare_addrs x z ≡ true
  unfolding compare_addrs
  compare_addrs_trans x y z h k =
      ground (arith, bytes_compare_trans (m.encoded x) (m.encoded y) (m.encoded z))

  compare_addrs_antisymm :
      (x y : A)
      → EncodesUniquely A
      → before compare_addrs x y ≡ false
      → before compare_addrs y x ≡ false
      → x ≡ y
  unfolding compare_addrs
  compare_addrs_antisymm x y u h k =
      ground (arith, bytes_compare_antisymm (m.encoded x) (m.encoded y), u.injective x y)

  pub compare_addrs-IsOrder : EncodesUniquely A → IsOrder (compare_addrs {A = A})
  compare_addrs-IsOrder u = record {
    asymm = compare_addrs_asymm;
    trans = compare_addrs_trans;
    antisymm = λ x y. compare_addrs_antisymm x y u;
  }

  Multiaddr-discrete : EncodesUniquely A → Discrete A
  Multiaddr-discrete u x y = elim (bytes_dec (m.encoded x) (m.encoded y)) [
    | yes e ↦ yes (u.injective x y e)
    | no n ↦ no (λ e. n (ap m.encoded e))
  ]

  -- sorted_addrs returns the same list for any two orders of the same addresses, if no two
  -- addresses have the same encoding.
  pub sorted_addrs-eq_of_perm :
      (xs ys : List A) → EncodesUniquely A → Perm xs ys → sorted_addrs xs ≡ sorted_addrs ys
  unfolding sorted_addrs
  sorted_addrs-eq_of_perm xs ys u =
      sort_func-eq_of_perm compare_addrs (compare_addrs-IsOrder u) (hedberg (Multiaddr-discrete u))

  -- filter_private_multiaddr returns the same list for any two orders of the same addresses,
  -- if no two addresses have the same encoding.
  filter_private_multiaddr-eq_of_perm :
      (xs ys : List A)
      → EncodesUniquely A
      → Perm xs ys
      → filter_private_multiaddr xs ≡ filter_private_multiaddr ys
  unfolding filter_private_multiaddr
  filter_private_multiaddr-eq_of_perm xs ys u p =
      sort_func-eq_of_perm compare_addrs (compare_addrs-IsOrder u) (hedberg (Multiaddr-discrete u))
        (perm-keep (λ x. not (m.is_private x)) p)

  -- The result of filter_private_multiaddr has no private address, and together with the private
  -- addresses of the input it is a rearrangement of the input: no public address is lost,
  -- added or doubled.
  pub filter_private_multiaddr_contents :
      (xs : List A)
      → All (λ x. m.is_private x ≡ false) (filter_private_multiaddr xs)
        × Perm (filter_private_multiaddr xs ++ keep m.is_private xs) xs
  unfolding filter_private_multiaddr
  filter_private_multiaddr_contents xs = (
    All-sort_func compare_addrs _ _ (All-imp _ _ (keep _ xs) (λ x h. ground arith) (All-keep _ xs)),
    Perm.trans (Perm.append_right _ (sort_func-perm compare_addrs _))
        (perm_keep_not m.is_private xs),
  )

  -- Later addresses need no fewer steps to dial.
  abbrev pub IsRanked : List A → Type 0
  IsRanked [] = Unit
  IsRanked (x ∷ xs) = All (λ y. addr_sort_rank x ≤ addr_sort_rank y) xs × IsRanked xs

  rank_of_not_before :
      (x y : A) → before compare_addrs y x ≡ false → addr_sort_rank x ≤ addr_sort_rank y
  unfolding compare_addrs
  rank_of_not_before x y h = ground arith

  IsSorted-IsRanked : (xs : List A) → IsSorted compare_addrs xs → IsRanked xs
  IsSorted-IsRanked [] s = tt
  IsSorted-IsRanked (x ∷ xs) s =
      (All-imp _ _ xs (rank_of_not_before x) s.0, IsSorted-IsRanked xs s.1)

  -- Both results, sorted_addrs and filter_private_multiaddr, have the addresses that are
  -- dialled most directly first, and sorting or filtering such a result again changes nothing,
  -- if no two addresses have the same encoding.
  response_order :
      (xs : List A)
      → EncodesUniquely A
      → IsRanked (sorted_addrs xs)
        × IsRanked (filter_private_multiaddr xs)
        × (sorted_addrs (sorted_addrs xs) ≡ sorted_addrs xs)
        × (filter_private_multiaddr (filter_private_multiaddr xs) ≡ filter_private_multiaddr xs)
  unfolding sorted_addrs filter_private_multiaddr
  response_order xs u = (
    IsSorted-IsRanked _ (sort_func-IsSorted compare_addrs o xs),
    IsSorted-IsRanked _ (sort_func-IsSorted compare_addrs o kept),
    sort_func_of_IsSorted compare_addrs o _ (sort_func-IsSorted compare_addrs o xs),
    rw
        (keep_of_All (λ x. not (m.is_private x)) (sort_func compare_addrs kept)
          (All-sort_func compare_addrs _ kept (All-keep _ xs)))
        (sort_func_of_IsSorted compare_addrs o _ (sort_func-IsSorted compare_addrs o kept)),
  )
    where
      o : IsOrder (compare_addrs {A = A})
      o = compare_addrs-IsOrder u

      kept : List A
      kept = keep (λ x. not (m.is_private x)) xs

  -- split_relay_addrs gives the addresses that are not relay addresses and those that are, each
  -- list in the order of the input.
  pub split_relay_addrs-keep :
      (xs : List A)
      → split_relay_addrs xs ≡ (keep (λ x. not (is_relay_addr x)) xs, keep is_relay_addr xs)
  unfolding split_relay_addrs
  split_relay_addrs-keep [] = refl
  split_relay_addrs-keep (x ∷ xs) = ground (arith, split_relay_addrs-keep xs)
