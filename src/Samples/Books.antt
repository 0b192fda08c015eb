-- ===== src/Samples/Books.antt =====
-- An address book over two addresses, one direct and one over a relay: the time until which it
-- holds each address of each peer.
use mathlib.Core.List.{Mem, mem-cons, mem-cons_self, not-mem-nil}
use mathlib.Core.Logic.Or
use someguy.Prelude.{
  ◌*◌, ℕ, ◌+◌, ◌<◌, max, ◌≡◌, refl, ◌↔◌, inl, inr, Bool, true, false, ◌&&◌, ◌||◌, none, List, [],
  ◌∷◌, keep, arith, if◌then◌else◌, ltb, Bool-cases,
}
use someguy.Prelude.Keep.{mem-keep, Bool_path_prop}
use someguy.Prelude.Bytes.{Bytes, same, same_iff}
use someguy.Multiaddr.{Multiaddr, Protocol, ip4, circuit}
use someguy.AddrBook.{AddrBook, AddrBookLaws}
use someguy.Context.{hour}
use someguy.CachedAddrBook.Types.{Limits, PeerState, CachedAddrBook}

pub data SampleAddr : Type 0 where
  direct_addr relay_addr : SampleAddr

abbrev addr_protocols : SampleAddr → List Protocol
addr_protocols direct_addr = ip4 ∷ []
addr_protocols relay_addr = ip4 ∷ circuit ∷ []

abbrev addr_bytes : SampleAddr → Bytes
addr_bytes direct_addr = 4 ∷ []
addr_bytes relay_addr = 4 ∷ 90 ∷ []

abbrev is_relay : Protocol → SampleAddr → Bool
is_relay circuit relay_addr = true
is_relay p a = false

instance abbrev pub sample_multiaddr : Multiaddr SampleAddr
sample_multiaddr = record {
  protocols = addr_protocols;
  encoded = addr_bytes;
  text = addr_bytes;
  has_value = is_relay;
  is_nil = λ a. false;
  is_public = λ a. true;
  is_private = λ a. false;
  split_first = λ a. (none, a);
  split_last = λ a. (a, none);
  decode_peer = λ v. none;
}

abbrev same_addr : SampleAddr → SampleAddr → Bool
same_addr direct_addr direct_addr = true
same_addr relay_addr relay_addr = true
same_addr a b = false

same_addr_refl : (a : SampleAddr) → same_addr a a ≡ true
same_addr_refl direct_addr = refl
same_addr_refl relay_addr = refl

same_addr-eq : (a b : SampleAddr) → same_addr a b ≡ true → a ≡ b
same_addr-eq a b h = ground arith

unfoldable pub holds : List SampleAddr → SampleAddr → Bool
holds [] a = false
holds (x ∷ l) a = same_addr a x || holds l a

holds_of_mem : (l : List SampleAddr) (a : SampleAddr) → Mem a l → holds l a ≡ true
unfolding holds
holds_of_mem [] a h = absurd (not-mem-nil h)
holds_of_mem (x ∷ l) a h =
    Or.elim Bool_path_prop (mem-cons.0 h) (λ e. rw (← e, same_addr_refl a))
      (λ k. ground (arith, holds_of_mem l a k))

mem_of_holds : (l : List SampleAddr) (a : SampleAddr) → holds l a ≡ true → Mem a l
unfolding holds
mem_of_holds [] a h = absurd (ground arith)
mem_of_holds (x ∷ l) a h = elim (Bool-cases (same_addr a x)) [
  | inl e ↦ rw (same_addr-eq a x e) mem-cons_self
  | inr e ↦ mem-cons.1 (Or.inr (mem_of_holds l a (ground arith)))
]

abbrev pub Book : Type 0
Book = Bytes → SampleAddr → ℕ

-- The book with the times of some addresses of one peer changed.
abbrev change : Book → Bytes → List SampleAddr → (ℕ → ℕ) → Book
change b p l f q a = if same q p && holds l a then f (b q a) else b q a

abbrev both : List SampleAddr
both = direct_addr ∷ relay_addr ∷ []

abbrev pub sample_book : AddrBook Book SampleAddr (Bytes × List SampleAddr)
sample_book = record {
  addrs = λ b now p. keep (λ a. ltb now (b p a)) both;
  add_addrs = λ b now p l ttl. change b p l (λ t. max t (now + ttl));
  set_addrs = λ b now p l ttl. change b p l (λ t. now + ttl);
  update_addrs = λ b now p old new. b;
  clear_addrs = λ b p. change b p both (λ t. 0);
  peers_with_addrs = λ b now. [];
  is_certified = true;
  consume_peer_record = λ b now e ttl. (change b e.0 e.1 (λ t. max t (now + ttl)), true);
}

module _ (b : Book) (p : Bytes) (l : List SampleAddr) (f : ℕ → ℕ) (a : SampleAddr) where
  pub change_mem : Mem a l → change b p l f p a ≡ f (b p a)
  change_mem h = rw ((same_iff p p).1 refl, holds_of_mem l a h)

  pub change_other : ¬ Mem a l → change b p l f p a ≡ b p a
  change_other h = elim (Bool-cases (holds l a)) [
    | inl e ↦ absurd (h (mem_of_holds l a e))
    | inr e ↦ rw ((same_iff p p).1 refl, e)
  ]

pub mem-both : (a : SampleAddr) → Mem a both
unfolding holds
mem-both a = mem_of_holds both a (ground arith)

pub mem-held :
    (b : Book) (now : ℕ) (p : Bytes) (a : SampleAddr)
    → Mem a (keep (λ x. ltb now (b p x)) both) ↔ (now < b p a)
mem-held b now p a = (
  λ h. let k = ((mem-keep (λ x. ltb now (b p x)) a both).0 h).1 in ground arith,
  λ h. (mem-keep (λ x. ltb now (b p x)) a both).1 (mem-both a, ground arith),
)

unfoldable pub sample_book-laws : AddrBookLaws Book SampleAddr (Bytes × List SampleAddr) sample_book
sample_book-laws = record {
  expiry = λ b p a. b p a;
  signed_addrs = λ e. e.1;
  signer = λ e. e.0;
  mem-addrs = λ b now p a. mem-held b now p a;
  expiry-add_mem = λ b now p l ttl a h. change_mem b p l (λ t. max t (now + ttl)) a h;
  expiry-add_other = λ b now p l ttl a h. change_other b p l (λ t. max t (now + ttl)) a h;
  expiry-set_mem = λ b now p l ttl a h. change_mem b p l (λ t. now + ttl) a h;
  expiry-set_other = λ b now p l ttl a h. change_other b p l (λ t. now + ttl) a h;
  expiry-clear = λ b p a. change_mem b p both (λ t. 0) a (mem-both a);
  expiry-consume_mem = λ b now e ttl a acc h. change_mem b e.0 e.1 (λ t. max t (now + ttl)) a h;
  expiry-consume_other = λ b now e ttl a h. change_other b e.0 e.1 (λ t. max t (now + ttl)) a h;
  consume_rejected = λ b now e ttl h. cc;
}

abbrev pub limits : Limits
limits = record {
  connected_addr_ttl = 1000 * hour;
  provide_validity = 48 * hour;
  reservation_ttl = hour;
}

abbrev pub Cab : Type 0
Cab = CachedAddrBook Book (List (Bytes × PeerState)) SampleAddr

-- Every address of every peer is held until 900.
abbrev pub cab : Cab
cab = record {
  addr_book = λ p a. 900;
  host_peerstore = none;
  peer_cache = [];
  probing_enabled = true;
  is_probing = false;
  allow_private_ips = false;
  recently_connected_ttl = 48 * hour;
  relay_addr_ttl = 2 * hour;
  find_peer_slots = 512;
  slots_held = 0;
  lookups_rejected = 0;
  peer_state_size = 0;
}

abbrev pub peer : Bytes
peer = 1 ∷ []
