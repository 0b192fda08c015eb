-- ===== src/DnsAddr/Contents/Distinct.antt =====
-- The texts of the addresses that a record has after resolveAddrs (dnsaddr.go).
use mathlib.Core.List.{
  Mem, Mem-prop, Nodup, Perm, mem-cons, mem-map_of_mem, not-mem-nil, reverse_perm,
}
use mathlib.Core.List.Perm
use mathlib.Core.List.Pairwise
use mathlib.Core.Logic.Or
use someguy.Prelude.{
  ◌≡◌, refl, ◌⊎◌, inl, inr, Bool, true, false, List, [], ◌∷◌, map, arith, Bool-cases,
}
use someguy.Prelude.Bytes.{Bytes}
use someguy.Multiaddr.{Multiaddr}
use someguy.Lru.{Lru}
use someguy.Context.{Ctx}
use someguy.DnsAddr.Host.{split_peer_id, is_dns_addr, contains_dns_addr}
use someguy.DnsAddr.Types.{CacheEntry, Dns, State, max_resolved_per_record}
use someguy.DnsAddr.Expand.{Output, names_other_peer, resolve_addr, resolve_each, resolve_addrs}
use someguy.DnsAddr.Contents.{
  IsOutput, append_unique-IsOutput, append_all_unique-IsOutput, append_unique-mem,
  append_unique-mem_self, append_all_unique-mem,
}
use someguy.DnsAddr.Contents.Cases.{no_output, resolve_addr_cases}

texts-perm :
    {A : Type 0} ⦃m : Multiaddr A⦄ (o : Output A) → IsOutput o → Perm o.seen (map m.text o.out)
texts-perm o h = rw h.seen_texts (reverse_perm _)

no_output-IsOutput : {A : Type 0} ⦃m : Multiaddr A⦄ → IsOutput (no_output {A = A})
no_output-IsOutput = record { seen_texts = refl; distinct = Pairwise.nil }

module _ {A C : Type 0} ⦃m : Multiaddr A⦄ (cache : Lru C Bytes (CacheEntry A)) (dns : Dns A)
    (ctx : Ctx) (pid : Bytes) (keep_original : Bool) where
  resolve_addr-IsOutput :
      (addr : A) (o : Output A) (s : State C)
      → IsOutput o
      → IsOutput (resolve_addr cache dns ctx pid keep_original addr (o, s)).0
  resolve_addr-IsOutput addr o s h =
      resolve_addr_cases cache dns ctx pid keep_original IsOutput addr o s
        (λ _. append_unique-IsOutput o addr h) (λ _. append_unique-IsOutput o addr h) (λ _ _. h)
        (λ _ _ _. append_unique-IsOutput _ addr (append_all_unique-IsOutput o _ h))
        (λ _ _ _. append_all_unique-IsOutput o _ h)

  resolve_each-IsOutput :
      (addrs : List A) (o : Output A) (s : State C)
      → IsOutput o
      → IsOutput (resolve_each cache dns ctx pid keep_original addrs (o, s)).0
  unfolding resolve_each
  resolve_each-IsOutput [] o s h = h
  resolve_each-IsOutput (a ∷ rest) o s h =
      let r = resolve_addr cache dns ctx pid keep_original a (o, s) in
      resolve_each-IsOutput rest r.0 r.1 (resolve_addr-IsOutput a o s h)

  resolve_addr-mem :
      (t : Bytes) (addr : A) (o : Output A) (s : State C)
      → Mem t o.seen
      → Mem t (resolve_addr cache dns ctx pid keep_original addr (o, s)).0.seen
  resolve_addr-mem t addr o s h =
      resolve_addr_cases cache dns ctx pid keep_original (λ o'. Mem t o'.seen) addr o s
        (λ _. append_unique-mem t o addr h) (λ _. append_unique-mem t o addr h) (λ _ _. h)
        (λ _ _ _. append_unique-mem t _ addr (append_all_unique-mem t o _ h))
        (λ _ _ _. append_all_unique-mem t o _ h)

  resolve_each-mem :
      (t : Bytes) (addrs : List A) (o : Output A) (s : State C)
      → Mem t o.seen
      → Mem t (resolve_each cache dns ctx pid keep_original addrs (o, s)).0.seen
  unfolding resolve_each
  resolve_each-mem t [] o s h = h
  resolve_each-mem t (a ∷ rest) o s h =
      let r = resolve_addr cache dns ctx pid keep_original a (o, s) in
      resolve_each-mem t rest r.0 r.1 (resolve_addr-mem t a o s h)

  -- An address that the record keeps: it needs no lookup, or originals are kept and it names
  -- no other peer.
  abbrev pub Survives : A → Type 0
  Survives a =
      (m.is_nil a ≡ false)
      × ((is_dns_addr a ≡ false)
          ⊎ ((keep_original ≡ true) × (names_other_peer pid (split_peer_id a).0 ≡ false)))

  resolve_addr-Survives :
      (addr : A) (o : Output A) (s : State C)
      → Survives addr
      → Mem (m.text addr) (resolve_addr cache dns ctx pid keep_original addr (o, s)).0.seen
  resolve_addr-Survives addr o s v =
      resolve_addr_cases cache dns ctx pid keep_original (λ o'. Mem (m.text addr) o'.seen) addr o s
        (λ _. append_unique-mem_self o addr v.0) (λ _. append_unique-mem_self o addr v.0)
        (λ d f. absurd (ground arith)) (λ _ _ _. append_unique-mem_self _ addr v.0)
        (λ d n k. absurd (ground arith))

  resolve_each-Survives :
      (a : A) (addrs : List A) (o : Output A) (s : State C)
      → Mem a addrs
      → Survives a
      → Mem (m.text a) (resolve_each cache dns ctx pid keep_original addrs (o, s)).0.seen
  unfolding resolve_each
  resolve_each-Survives a [] o s h v = absurd (not-mem-nil h)
  resolve_each-Survives a (b ∷ rest) o s h v =
      let r = resolve_addr cache dns ctx pid keep_original b (o, s) in
      Or.elim Mem-prop (mem-cons.0 h)
        (λ e.
          resolve_each-mem (m.text a) rest r.0 r.1 (rw e (resolve_addr-Survives b o s (rw e at v))))
        (λ k. resolve_each-Survives a rest r.0 r.1 k v)

  -- A record with a /dnsaddr in it has no two addresses of the same text after resolve_addrs.
  resolve_addrs_distinct :
      (addrs : List A) (s : State C)
      → contains_dns_addr addrs ≡ true
      → Nodup (map m.text (resolve_addrs cache dns ctx pid keep_original addrs s).0)
  unfolding resolve_addrs
  resolve_addrs_distinct addrs s h = rw h (Perm.nodup (texts-perm _ each) each.distinct)
    where
      each :
          IsOutput
            (resolve_each cache dns ctx pid keep_original addrs
              (no_output, record s { room = max_resolved_per_record })).0
      each = resolve_each-IsOutput addrs no_output _ no_output-IsOutput

  -- resolve_addrs loses no address of the record that needs no lookup. If originals are kept, it
  -- also loses no /dnsaddr that names no other peer. (Such an address is in the result by its text.)
  resolve_addrs_keeps :
      (a : A) (addrs : List A) (s : State C)
      → Mem a addrs
      → Survives a
      → Mem (m.text a) (map m.text (resolve_addrs cache dns ctx pid keep_original addrs s).0)
  unfolding resolve_addrs
  resolve_addrs_keeps a addrs s h v = elim (Bool-cases (contains_dns_addr addrs)) [
    | inl e ↦
        rw (e, resolve_addrs)
          (Perm.subset
            (texts-perm _ (resolve_each-IsOutput addrs no_output start no_output-IsOutput))
            (m.text a) (resolve_each-Survives a addrs no_output start h v))
    | inr e ↦ rw (e, resolve_addrs) (mem-map_of_mem m.text h)
  ]
    where
      start : State C
      start = record s { room = max_resolved_per_record }
