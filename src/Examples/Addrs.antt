-- ===== src/Examples/Addrs.antt =====
-- The order and the private filter of addresses, on short addresses.
use mathlib.Core.List.{Perm}
use mathlib.Core.List.Perm
use someguy.Prelude.{◌≡◌, refl, List, [], ◌∷◌, ◌++◌, All, keep, false}
use someguy.Prelude.Bytes.{Bytes, bytes_compare}
use someguy.Prelude.Sort.{sort_func}
use someguy.Addrs.{addr_sort_rank, compare_addrs, sorted_addrs, filter_private_multiaddr}
use someguy.Addrs.Order.{sorted_addrs-eq_of_perm, filter_private_multiaddr_contents}
use someguy.Samples.{bytes_multiaddr, bytes_multiaddr-EncodesUniquely}

-- A relay address, a DNS address, a public and a private IP address.
abbrev shuffled : List Bytes
shuffled = (4 ∷ 90 ∷ []) ∷ (53 ∷ 1 ∷ []) ∷ (4 ∷ 2 ∷ []) ∷ (4 ∷ 10 ∷ []) ∷ []

abbrev shuffled_again : List Bytes
shuffled_again = (53 ∷ 1 ∷ []) ∷ (4 ∷ 90 ∷ []) ∷ (4 ∷ 2 ∷ []) ∷ (4 ∷ 10 ∷ []) ∷ []

same_addresses : Perm shuffled shuffled_again
same_addresses = Perm.swap _ _ _

sorted_addrs_test :
    sorted_addrs shuffled ≡ (4 ∷ 2 ∷ []) ∷ (4 ∷ 10 ∷ []) ∷ (53 ∷ 1 ∷ []) ∷ (4 ∷ 90 ∷ []) ∷ []
unfolding sorted_addrs sort_func compare_addrs addr_sort_rank bytes_compare
sorted_addrs_test = refl

sorted_addrs-eq_of_perm_example : sorted_addrs shuffled ≡ sorted_addrs shuffled_again
sorted_addrs-eq_of_perm_example =
    sorted_addrs-eq_of_perm shuffled shuffled_again bytes_multiaddr-EncodesUniquely same_addresses

filter_private_multiaddr_contents_example :
    All (λ x. bytes_multiaddr.is_private x ≡ false) (filter_private_multiaddr shuffled)
    × Perm (filter_private_multiaddr shuffled ++ keep bytes_multiaddr.is_private shuffled) shuffled
filter_private_multiaddr_contents_example = filter_private_multiaddr_contents shuffled
