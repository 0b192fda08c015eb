-- ===== src/CachedAddrBook/Caching.antt =====
-- What CacheAddrs takes into the address book.
use mathlib.Core.List.{Mem}
use native.Mathlib.Decide.{dec_le}
use someguy.Prelude.{
  ℕ, ◌+◌, ◌≤◌, max, ◌≡◌, ◌⊎◌, inl, inr, Bool, true, false, not, ◌||◌, List, keep, arith, Bool-cases,
  if◌then◌else◌,
}
use someguy.Prelude.Keep.{mem-keep, mem-keep_test}
use someguy.Prelude.Bytes.{Bytes}
use someguy.Multiaddr.{Multiaddr}
use someguy.Addrs.{is_relay_addr}
use someguy.Addrs.Order.{split_relay_addrs-keep}
use someguy.AddrBook.{AddrBook, AddrBookLaws}
use someguy.CachedAddrBook.Types.{Limits, CachedAddrBook}
use someguy.CachedAddrBook.Addrs.{cacheable, cache_addrs}

-- An order may be proved by cases on a proposition that is not decided.
le_by_cases : {M : Type 0} (x y : ℕ) → (M → x ≤ y) → (¬ M → x ≤ y) → x ≤ y
le_by_cases x y f g = elim (dec_le x y) [ yes h ↦ h | no n ↦ g (λ q. n (f q)) ]

module _ {B A E : Type 0} (book : AddrBook B A E) (laws : AddrBookLaws B A E book) (b : B) (now : ℕ)
    (p : Bytes) (l : List A) (ttl : ℕ) (a : A) where
  expiry-add-ge : laws.expiry b p a ≤ laws.expiry (book.add_addrs b now p l ttl) p a
  expiry-add-ge =
      le_by_cases {M = Mem a l} _ _ (λ h. omega (arith, laws.expiry-add_mem b now p l ttl a h))
        (λ h. omega (arith, laws.expiry-add_other b now p l ttl a h))

  expiry-add-le :
      laws.expiry (book.add_addrs b now p l ttl) p a ≤ max (laws.expiry b p a) (now + ttl)
  expiry-add-le =
      le_by_cases {M = Mem a l} _ _ (λ h. omega (arith, laws.expiry-add_mem b now p l ttl a h))
        (λ h. omega (arith, laws.expiry-add_other b now p l ttl a h))

module _ {B C A E : Type 0} ⦃m : Multiaddr A⦄ (limits : Limits) (book : AddrBook B A E)
    (laws : AddrBookLaws B A E book) (now : ℕ) (p : Bytes) (addrs : List A)
    (cab : CachedAddrBook B C A) where
  abbrev direct : List A
  direct = keep (λ x. not (is_relay_addr x)) (cacheable limits book cab addrs)

  abbrev relay : List A
  relay = keep is_relay_addr (cacheable limits book cab addrs)

  abbrev with_direct : B
  with_direct = book.add_addrs cab.addr_book now p direct cab.recently_connected_ttl

  abbrev cached : B
  cached = (cache_addrs limits book now p addrs cab).addr_book

  cache_addrs-steps :
      (cached ≡ cab.addr_book)
      ⊎ (cached ≡ book.add_addrs with_direct now p relay cab.relay_addr_ttl)
  unfolding cache_addrs
  cache_addrs-steps = ground (arith, split_relay_addrs-keep (cacheable limits book cab addrs))

  not_in :
      (a : A) (q : A → Bool)
      → ¬ (Mem a addrs × ((cab.allow_private_ips || m.is_public a) ≡ true))
      → ¬ Mem a (keep q (cacheable limits book cab addrs))
  unfolding cacheable
  not_in a q h k = h (
      (mem-keep (λ x. cab.allow_private_ips || m.is_public x) a addrs).0
        ((mem-keep q a (cacheable limits book cab addrs)).0 k).0)

  not_direct : (a : A) → is_relay_addr a ≡ true → ¬ Mem a direct
  not_direct a r k =
      let t = mem-keep_test (λ x. not (is_relay_addr x)) a (cacheable limits book cab addrs) k in
      ground arith

  not_relay : (a : A) → is_relay_addr a ≡ false → ¬ Mem a relay
  not_relay a r k =
      let t = mem-keep_test is_relay_addr a (cacheable limits book cab addrs) k in ground arith

  -- CacheAddrs never shortens the life of an address in the book. It lets a relay address last no
  -- longer than the relay TTL, and any other no longer than the recently-connected TTL, unless
  -- the book held it longer before.
  pub cache_addrs_expiry :
      (a : A)
      → let old = laws.expiry cab.addr_book p a in
        let new = laws.expiry cached p a in
        let ttl = if is_relay_addr a then cab.relay_addr_ttl else cab.recently_connected_ttl in
        (old ≤ new) × (new ≤ max old (now + ttl))
  cache_addrs_expiry a = elim cache_addrs-steps [
    | inl e ↦ rw e (omega arith)
    | inr e ↦ elim (Bool-cases (is_relay_addr a)) [
      | inl r ↦
          rw (e, r)
            (omega (
              arith,
              added,
              laws.expiry-add_other cab.addr_book now p direct cab.recently_connected_ttl a
                  (not_direct a r),
              expiry-add-le book laws with_direct now p relay cab.relay_addr_ttl a,
            ))
      | inr r ↦
          rw (e, r)
            (omega (
              arith,
              added,
              expiry-add-le book laws cab.addr_book now p direct cab.recently_connected_ttl a,
              laws.expiry-add_other with_direct now p relay cab.relay_addr_ttl a (not_relay a r),
            ))
    ]
  ]
    where
      added :
          laws.expiry cab.addr_book p a
          ≤ laws.expiry (book.add_addrs with_direct now p relay cab.relay_addr_ttl) p a
      added = omega (
        arith,
        expiry-add-ge book laws cab.addr_book now p direct cab.recently_connected_ttl a,
        expiry-add-ge book laws with_direct now p relay cab.relay_addr_ttl a,
      )

  -- CacheAddrs changes nothing for an address that it was not given, nor for one that is not
  -- public, unless private ones are allowed.
  cache_addrs_other :
      (a : A)
      → ¬ (Mem a addrs × ((cab.allow_private_ips || m.is_public a) ≡ true))
      → laws.expiry cached p a ≡ laws.expiry cab.addr_book p a
  cache_addrs_other a h = elim cache_addrs-steps [
    | inl e ↦ rw e
    | inr e ↦ rw (
      e,
      laws.expiry-add_other with_direct now p relay cab.relay_addr_ttl a (not_in a _ h),
      laws.expiry-add_other cab.addr_book now p direct cab.recently_connected_ttl a (not_in a _ h),
    )
  ]
