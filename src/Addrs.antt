-- ===== src/Addrs.antt =====
-- The address order and the private-address filter of server_routers.go, and the split of relay
-- addresses in cached_addr_book.go. types.Multiaddr only wraps an address, so it is the address.
pub mod Order
use someguy.Prelude.{ℕ, Bool, not, List, [], ◌∷◌, keep, if◌then◌else◌, ◌==◌}
use someguy.Prelude.Int.{ℤ, sub_ℕ}
use someguy.Prelude.Bytes.{bytes_compare}
use someguy.Prelude.Sort.{sort_func}
use someguy.Multiaddr.{Multiaddr, Protocol, ip4, ip6, dns, dns4, dns6, dnsaddr, circuit}

-- The switch over protos[0].Code.
unfoldable pub protocol_rank : Protocol → ℕ
protocol_rank ip4 = 0
protocol_rank ip6 = 0
protocol_rank dns = 1
protocol_rank dns4 = 1
protocol_rank dns6 = 1
protocol_rank dnsaddr = 2
protocol_rank p = 3

-- The first protocol of an address decides, and an address without any comes late.
unfoldable pub protocols_rank : List Protocol → ℕ
unfolding protocol_rank
protocols_rank [] = 3
protocols_rank (p ∷ ps) = protocol_rank p

module _ {A : Type 0} ⦃m : Multiaddr A⦄ where
  unfoldable pub is_relay_addr : A → Bool
  is_relay_addr a = m.has_value circuit a

  unfoldable pub addr_sort_rank : A → ℕ
  unfolding is_relay_addr protocols_rank
  addr_sort_rank a = if is_relay_addr a then 4 else protocols_rank (m.protocols a)

  unfoldable pub compare_addrs : A → A → ℤ
  compare_addrs x y =
      if addr_sort_rank x == addr_sort_rank y
      then bytes_compare (m.encoded x) (m.encoded y)
      else sub_ℕ (addr_sort_rank x) (addr_sort_rank y)

  unfoldable pub sorted_addrs : List A → List A
  sorted_addrs addrs = sort_func compare_addrs addrs

  unfoldable pub filter_private_multiaddr : List A → List A
  filter_private_multiaddr a = sort_func compare_addrs (keep (λ x. not (m.is_private x)) a)

  -- The two appends of the loop, in the order of the input.
  unfoldable pub split_relay_addrs : List A → List A × List A
  unfolding is_relay_addr
  split_relay_addrs [] = ([], [])
  split_relay_addrs (a ∷ rest) =
      let (direct, relay) = split_relay_addrs rest in
      if is_relay_addr a then (direct, a ∷ relay) else (a ∷ direct, relay)
