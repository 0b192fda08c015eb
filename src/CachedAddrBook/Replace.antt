-- ===== src/CachedAddrBook/Replace.antt =====
-- What a completed identify leaves in the address book.
use mathlib.Core.List.{Mem, not-mem-nil}
use someguy.Prelude.{
  ℕ, ◌+◌, ◌≤◌, ◌<◌, ◌≡◌, refl, ◌⊎◌, inl, inr, Bool, true, false, ◌&&◌, Option, none, some, List, [],
  ◌∷◌, is_empty, arith, Bool-cases, if◌then◌else◌, ltb,
}
use someguy.Prelude.Keep.{mem-keep}
use someguy.Prelude.Bytes.{Bytes}
use someguy.Multiaddr.{Multiaddr}
use someguy.Addrs.{is_relay_addr, split_relay_addrs}
use someguy.Addrs.Order.{split_relay_addrs-keep}
use someguy.AddrBook.{AddrBook, AddrBookLaws}
use someguy.CachedAddrBook.Types.{Limits, CachedAddrBook}
use someguy.CachedAddrBook.Addrs.{cap_relay_addr_ttl, consume_signed, replace_peer_addrs}

-- The identify carried neither a signed record nor any address.
abbrev pub nothing_given : {A E : Type 0} → Option E → List A → List A → Bool
nothing_given signed listen_addrs conn_addrs =
    (elim signed [ none ↦ true | some e ↦ false ]) && is_empty listen_addrs && is_empty conn_addrs

is_empty_of_mem : {A : Type 0} (a : A) (l : List A) → Mem a l → is_empty l ≡ false
is_empty_of_mem a [] h = absurd (not-mem-nil h)
is_empty_of_mem a (x ∷ l) h = refl

module _ {B A E : Type 0} ⦃m : Multiaddr A⦄ (book : AddrBook B A E)
    (laws : AddrBookLaws B A E book) where
  relay_mem :
      (b : B) (now : ℕ) (p : Bytes) (a : A)
      → Mem a (split_relay_addrs (book.addrs b now p)).1
      → (now < laws.expiry b p a) × (is_relay_addr a ≡ true)
  relay_mem b now p a h =
      let k = (mem-keep is_relay_addr a (book.addrs b now p)).0 (rw split_relay_addrs-keep at h) in
      ((laws.mem-addrs b now p a).0 k.0, k.1)

  mem_relay :
      (b : B) (now : ℕ) (p : Bytes) (a : A)
      → now < laws.expiry b p a
      → is_relay_addr a ≡ true
      → Mem a (split_relay_addrs (book.addrs b now p)).1
  mem_relay b now p a live relay =
      rw split_relay_addrs-keep (
        (mem-keep is_relay_addr a (book.addrs b now p)).1
          ((laws.mem-addrs b now p a).1 live, relay))

  abbrev set_if_any : B → ℕ → Bytes → List A → ℕ → B
  set_if_any b now p l ttl = if is_empty l then b else book.set_addrs b now p l ttl

  set_if_any_mem :
      (b : B) (now : ℕ) (p : Bytes) (l : List A) (ttl : ℕ) (a : A)
      → Mem a l
      → laws.expiry (set_if_any b now p l ttl) p a ≡ now + ttl
  set_if_any_mem b now p [] ttl a h = absurd (not-mem-nil h)
  set_if_any_mem b now p (x ∷ l) ttl a h = laws.expiry-set_mem b now p (x ∷ l) ttl a h

  set_if_any_other :
      (b : B) (now : ℕ) (p : Bytes) (l : List A) (ttl : ℕ) (a : A)
      → ¬ Mem a l
      → laws.expiry (set_if_any b now p l ttl) p a ≡ laws.expiry b p a
  set_if_any_other b now p [] ttl a h = refl
  set_if_any_other b now p (x ∷ l) ttl a h = laws.expiry-set_other b now p (x ∷ l) ttl a h

  -- The addresses that the identify advertises: those of an accepted signed record, else the
  -- listen addresses.
  abbrev pub Advertised : Option E → List A → A → Type 0
  Advertised none listen_addrs a = Mem a listen_addrs
  Advertised (some e) listen_addrs a = Mem a (laws.signed_addrs e) ⊎ Mem a listen_addrs

  -- The book after the clear and the advertised addresses.
  abbrev advertise : ℕ → Bytes → Option E → List A → ℕ → B → B
  advertise now p signed listen_addrs ttl b =
      let (b', accepted) = consume_signed book now signed ttl b in
      if accepted then b' else book.add_addrs b' now p listen_addrs ttl

  advertise_other :
      (now : ℕ) (p : Bytes) (signed : Option E) (listen_addrs : List A) (ttl : ℕ) (b : B) (a : A)
      → ((e : E) → signed ≡ some e → laws.signer e ≡ p)
      → ¬ Advertised signed listen_addrs a
      → laws.expiry (advertise now p signed listen_addrs ttl b) p a ≡ laws.expiry b p a
  unfolding consume_signed
  advertise_other now p none listen_addrs ttl b a own h =
      laws.expiry-add_other b now p listen_addrs ttl a h
  advertise_other now p (some e) listen_addrs ttl b a own h = ground (
    arith,
    own e refl,
    laws.consume_rejected b now e ttl,
    laws.expiry-add_other b now p listen_addrs ttl a (λ k. h (inr k)),
    laws.expiry-consume_other b now e ttl a (λ k. h (inl k)),
  )

module _ {B C A E : Type 0} ⦃m : Multiaddr A⦄ (limits : Limits) (book : AddrBook B A E)
    (laws : AddrBookLaws B A E book) where
  cap_relay_addr_ttl-set :
      (now : ℕ) (p : Bytes) (cab : CachedAddrBook B C A)
      → (cap_relay_addr_ttl limits book now p cab).addr_book
        ≡ set_if_any book laws cab.addr_book now p
            (split_relay_addrs (book.addrs cab.addr_book now p)).1
            cab.relay_addr_ttl
  unfolding cap_relay_addr_ttl
  cap_relay_addr_ttl-set now p cab = ground arith

  -- A relay address that is still served then lasts for the relay TTL, and no other address changes.
  pub cap_relay_addr_ttl-expiry :
      (now : ℕ) (p : Bytes) (a : A) (cab : CachedAddrBook B C A)
      → let old = laws.expiry cab.addr_book p a in
        laws.expiry (cap_relay_addr_ttl limits book now p cab).addr_book p a
        ≡ (if is_relay_addr a && ltb now old then now + cab.relay_addr_ttl else old)
  cap_relay_addr_ttl-expiry now p a cab =
      rw (cap_relay_addr_ttl-set now p cab)
        (elim (Bool-cases (is_relay_addr a && ltb now (laws.expiry cab.addr_book p a))) [
          | inl e ↦ rw e (
              set_if_any_mem book laws cab.addr_book now p _ cab.relay_addr_ttl a
                (mem_relay book laws cab.addr_book now p a (ground arith) (ground arith)))
          | inr e ↦ rw e (
              set_if_any_other book laws cab.addr_book now p _ cab.relay_addr_ttl a (λ h.
                let k = relay_mem book laws cab.addr_book now p a h in absurd (ground (arith, e))))
        ])

  module _ (now : ℕ) (p : Bytes) (signed : Option E) (listen_addrs conn_addrs : List A) (ttl : ℕ)
      (cab : CachedAddrBook B C A) where
    abbrev advertised : CachedAddrBook B C A
    advertised = record cab {
      addr_book =
          advertise book laws now p signed listen_addrs ttl (book.clear_addrs cab.addr_book p);
    }

    abbrev capped : CachedAddrBook B C A
    capped = cap_relay_addr_ttl limits book now p advertised

    abbrev replaced : CachedAddrBook B C A
    replaced = replace_peer_addrs limits book now p signed listen_addrs conn_addrs ttl cab

    replace_peer_addrs-steps :
        nothing_given signed listen_addrs conn_addrs ≡ false
        → replaced.addr_book ≡ (
            if is_empty conn_addrs
            then capped.addr_book
            else book.add_addrs capped.addr_book now p conn_addrs limits.connected_addr_ttl)
    unfolding replace_peer_addrs
    replace_peer_addrs-steps h = elim (Bool-cases (is_empty conn_addrs)) [
      | inl e ↦ rw (h, e, replace_peer_addrs)
      | inr e ↦ rw (h, e, replace_peer_addrs)
    ]

    -- Without a connection's address the cap has the last word.
    replaced_other :
        (a : A)
        → nothing_given signed listen_addrs conn_addrs ≡ false
        → ¬ Mem a conn_addrs
        → laws.expiry replaced.addr_book p a ≡ laws.expiry capped.addr_book p a
    replaced_other a h other = elim (Bool-cases (is_empty conn_addrs)) [
      | inl e ↦ rw (replace_peer_addrs-steps h, e)
      | inr e ↦
          rw (replace_peer_addrs-steps h, e)
            (laws.expiry-add_other capped.addr_book now p conn_addrs limits.connected_addr_ttl a
              other)
    ]

    -- An identify that carries something leaves no stale address of the peer: an address that it
    -- neither advertises nor has in a connection that is not inbound is gone, whatever the book
    -- held. (A signed record is the peer's own.)
    pub replace_peer_addrs_drops_stale :
        (a : A)
        → nothing_given signed listen_addrs conn_addrs ≡ false
        → ((e : E) → signed ≡ some e → laws.signer e ≡ p)
        → ¬ Advertised book laws signed listen_addrs a
        → ¬ Mem a conn_addrs
        → laws.expiry replaced.addr_book p a ≡ 0
    replace_peer_addrs_drops_stale a h own stale other = ground (
      arith,
      replaced_other a h other,
      cap_relay_addr_ttl-expiry now p a advertised,
      advertise_other book laws now p signed listen_addrs ttl (book.clear_addrs cab.addr_book p) a
          own stale,
      laws.expiry-clear cab.addr_book p a,
    )

    -- After such an identify a relay address that is in no connection of the peer that is not
    -- inbound lasts at most for the relay TTL.
    pub replace_peer_addrs_relay_ttl :
        (a : A)
        → nothing_given signed listen_addrs conn_addrs ≡ false
        → is_relay_addr a ≡ true
        → ¬ Mem a conn_addrs
        → laws.expiry replaced.addr_book p a ≤ now + cab.relay_addr_ttl
    replace_peer_addrs_relay_ttl a h relay other =
        ground (arith, replaced_other a h other, cap_relay_addr_ttl-expiry now p a advertised)

    -- The address of a connection lasts at least for the connected TTL, relay address or not: the
    -- cap on relay addresses does not reach it.
    replace_peer_addrs_conn_ttl :
        (a : A)
        → Mem a conn_addrs
        → now + limits.connected_addr_ttl ≤ laws.expiry replaced.addr_book p a
    replace_peer_addrs_conn_ttl a conn = ground (
      arith,
      replace_peer_addrs-steps (ground (arith, is_empty_of_mem a conn_addrs conn)),
      is_empty_of_mem a conn_addrs conn,
      laws.expiry-add_mem capped.addr_book now p conn_addrs limits.connected_addr_ttl a conn,
    )
