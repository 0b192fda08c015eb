-- ===== src/AddrBook.antt =====
-- The interface of libp2p's peerstore.AddrBook, as pstoremem implements it and cached_addr_book.go
-- calls it. The library is not part of the repository: the book is a parameter, and what the
-- program relies on are the laws below.
use mathlib.Core.List.{Mem}
use someguy.Prelude.{ℕ, ◌+◌, ◌<◌, max, ◌≡◌, ◌↔◌, Bool, true, false, List}
use someguy.Prelude.Bytes.{Bytes}

-- B: books, A: addresses, E: signed peer records. Every call takes the time at which it is made.
pub record AddrBook (B A E : Type 0) : Type 0 where
  pub addrs : B → ℕ → Bytes → List A
  pub add_addrs : B → ℕ → Bytes → List A → ℕ → B
  pub set_addrs : B → ℕ → Bytes → List A → ℕ → B
  pub update_addrs : B → ℕ → Bytes → ℕ → ℕ → B
  pub clear_addrs : B → Bytes → B
  pub peers_with_addrs : B → ℕ → List Bytes
  -- peerstore.GetCertifiedAddrBook finds one.
  pub is_certified : Bool
  -- The book after ConsumePeerRecord, and its first result.
  pub consume_peer_record : B → ℕ → E → ℕ → B × Bool

-- `expiry b p a` is the time until which a book holds an address for a peer; 0 if it holds none.
pub record AddrBookLaws (B A E : Type 0) (book : AddrBook B A E) : Type 1 where
  pub expiry : B → Bytes → A → ℕ
  pub signed_addrs : E → List A
  pub signer : E → Bytes
  pub mem-addrs :
      (b : B) (now : ℕ) (p : Bytes) (a : A) → Mem a (book.addrs b now p) ↔ (now < expiry b p a)
  -- AddAddrs never shortens a time to live; SetAddrs sets it.
  pub expiry-add_mem :
      (b : B) (now : ℕ) (p : Bytes) (l : List A) (ttl : ℕ) (a : A)
      → Mem a l
      → expiry (book.add_addrs b now p l ttl) p a ≡ max (expiry b p a) (now + ttl)
  pub expiry-add_other :
      (b : B) (now : ℕ) (p : Bytes) (l : List A) (ttl : ℕ) (a : A)
      → ¬ Mem a l
      → expiry (book.add_addrs b now p l ttl) p a ≡ expiry b p a
  pub expiry-set_mem :
      (b : B) (now : ℕ) (p : Bytes) (l : List A) (ttl : ℕ) (a : A)
      → Mem a l
      → expiry (book.set_addrs b now p l ttl) p a ≡ now + ttl
  pub expiry-set_other :
      (b : B) (now : ℕ) (p : Bytes) (l : List A) (ttl : ℕ) (a : A)
      → ¬ Mem a l
      → expiry (book.set_addrs b now p l ttl) p a ≡ expiry b p a
  pub expiry-clear : (b : B) (p : Bytes) (a : A) → expiry (book.clear_addrs b p) p a ≡ 0
  -- A signed record that is accepted adds its addresses for its peer, one that is not adds none.
  pub expiry-consume_mem :
      (b : B) (now : ℕ) (e : E) (ttl : ℕ) (a : A)
      → (book.consume_peer_record b now e ttl).1 ≡ true
      → Mem a (signed_addrs e)
      → expiry (book.consume_peer_record b now e ttl).0 (signer e) a
        ≡ max (expiry b (signer e) a) (now + ttl)
  pub expiry-consume_other :
      (b : B) (now : ℕ) (e : E) (ttl : ℕ) (a : A)
      → ¬ Mem a (signed_addrs e)
      → expiry (book.consume_peer_record b now e ttl).0 (signer e) a ≡ expiry b (signer e) a
  pub consume_rejected :
      (b : B) (now : ℕ) (e : E) (ttl : ℕ)
      → (book.consume_peer_record b now e ttl).1 ≡ false
      → (book.consume_peer_record b now e ttl).0 ≡ b
