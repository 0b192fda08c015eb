-- ===== src/DnsAddr/Contents/Cases.antt =====
-- The branches of resolveAddrs (dnsaddr.go) for one address.
use someguy.Prelude.{
  ◌≡◌, refl, inl, inr, Bool, true, false, not, ◌||◌, [], arith, Bool-cases, is_empty, if◌then◌else◌,
}
use someguy.Prelude.Bytes.{Bytes}
use someguy.Multiaddr.{Multiaddr}
use someguy.Lru.{Lru}
use someguy.Context.{Ctx}
use someguy.DnsAddr.Host.{split_peer_id, is_dns_addr}
use someguy.DnsAddr.Types.{CacheEntry, Dns, State, recursion_limit}
use someguy.DnsAddr.Expand.{
  Gathered, Output, append_unique, append_all_unique, names_other_peer, expand, resolve_addr,
}

-- A ladder of three tests, branch by branch.
pub if_cases {ℓ κ} :
    {X : Type ℓ} (P : X → Type κ) (a b c : Bool) (x y z w : X)
    → (a ≡ true → P x)
    → (a ≡ false → b ≡ true → P y)
    → (a ≡ false → b ≡ false → c ≡ true → P z)
    → (a ≡ false → b ≡ false → c ≡ false → P w)
    → P (if a then x else if b then y else if c then z else w)
if_cases P true b c x y z w f g h k = f refl
if_cases P false true c x y z w f g h k = g refl refl
if_cases P false false true x y z w f g h k = h refl refl refl
if_cases P false false false x y z w f g h k = k refl refl refl

abbrev pub no_output : {A : Type 0} → Output A
no_output = record { out = []; seen = [] }

module _ {A C : Type 0} ⦃m : Multiaddr A⦄ (cache : Lru C Bytes (CacheEntry A)) (dns : Dns A)
    (ctx : Ctx) (pid : Bytes) (keep_original : Bool) where
  -- A rule for what resolve_addr makes of the output: it is left, appended to, or extended.
  pub resolve_addr_cases {κ} :
      (P : Output A → Type κ) (addr : A) (o : Output A) (s : State C)
      → let g = expand cache dns ctx pid recursion_limit addr s in
        (is_dns_addr addr ≡ false → P (append_unique o addr))
        → (m.is_nil addr ≡ true → P (append_unique o addr))
        → (is_dns_addr addr ≡ true → names_other_peer pid (split_peer_id addr).0 ≡ true → P o)
        → (is_dns_addr addr ≡ true
            → names_other_peer pid (split_peer_id addr).0 ≡ false
            → (keep_original || not g.complete || is_empty g.out) ≡ true
            → P (append_unique (append_all_unique o g.out) addr))
        → (is_dns_addr addr ≡ true
            → names_other_peer pid (split_peer_id addr).0 ≡ false
            → (keep_original || not g.complete || is_empty g.out) ≡ false
            → P (append_all_unique o g.out))
        → P (resolve_addr cache dns ctx pid keep_original addr (o, s)).0
  unfolding resolve_addr
  resolve_addr_cases P addr o s plain nil foreign kept gone =
      if_cases (λ (r : Output A × State C). P r.0) (m.is_nil addr || not (is_dns_addr addr))
        (names_other_peer pid (split_peer_id addr).0)
        (keep_original || not g.complete || is_empty g.out) _ _ _ _
        (λ e. elim (Bool-cases (m.is_nil addr)) [ inl n ↦ nil n | inr n ↦ plain (ground arith) ])
        (λ e f. foreign (ground arith) f) (λ e n f. kept (ground arith) n f)
        (λ e n f. gone (ground arith) n f)
    where
      g : Gathered A C
      g = expand cache dns ctx pid recursion_limit addr s
