-- ===== src/DnsAddr/Contents.antt =====
-- Which addresses resolveAddrs returns.
pub mod Record
pub mod Sources
pub mod Leads
pub mod Cuts
pub mod Cases
pub mod Distinct
use mathlib.Core.List.{
  Mem, Nodup, Perm, reverse, reverse-append, map-append, Nodup-cons, mem-cons, mem-append,
  mem-cons_self, not-mem-nil, mem-append_left, mem-append_right, mem-cons_of_mem, mem-map_of_mem,
  reverse_perm,
}
use mathlib.Core.List.Perm
use mathlib.Core.Logic.Or
use mathlib.Core.HLevel.{⊥_prop}
use someguy.Prelude.{
  ℕ, zero, suc, ◌+◌, ◌≡◌, ◌≢◌, refl, sym, ap, ◌∙◌, ◌⊎◌, ◌↔◌, inl, inr, Bool, true, false, not, ◌||◌,
  ◌&&◌, Option, none, some, List, [], ◌∷◌, ◌++◌, map, any_of, All, All-append, arith, Bool-cases,
  ◌==◌,
}
use someguy.Prelude.Bytes.{Bytes, same, same_iff}
use someguy.Multiaddr.{Multiaddr}
use someguy.Lru.{Lru}
use someguy.Context.{Ctx}
use someguy.DnsAddr.Host.{split_peer_id, is_dns_addr, contains_dns_addr}
use someguy.DnsAddr.Types.{CacheEntry, Dns, State, recursion_limit, max_resolved_per_record}
use someguy.DnsAddr.Lookup.{lookup}
use someguy.DnsAddr.Expand.{
  Gathered, Output, append_unique, append_all_unique, names_other_peer, take_result, take_results,
  expand, resolve_addr, resolve_each, resolve_addrs,
}

any_of-same : (t : Bytes) (l : List Bytes) → any_of (same t) l ≡ false → ¬ Mem t l
any_of-same t [] h m = not-mem-nil m
any_of-same t (u ∷ l) h m =
    Or.elim ⊥_prop (mem-cons.0 m) (λ e. ground (arith, same_iff t u))
      (any_of-same t l (ground arith))

any_of-same_mem : (t : Bytes) (l : List Bytes) → any_of (same t) l ≡ true → Mem t l
any_of-same_mem t [] h = ground arith
any_of-same_mem t (u ∷ l) h = elim (Bool-cases (same t u)) [
  | inl e ↦ rw ((same_iff t u).0 e) mem-cons_self
  | inr e ↦ mem-cons.1 (Or.inr (any_of-same_mem t l (ground arith)))
]

module _ {A : Type 0} ⦃m : Multiaddr A⦄ where
  -- The texts that were seen are those of the addresses, the last first, without repetition.
  pub record IsOutput (o : Output A) : Type 0 where
    pub seen_texts : o.seen ≡ reverse (map m.text o.out)
    pub distinct : Nodup o.seen

  pub append_unique-IsOutput : (o : Output A) (a : A) → IsOutput o → IsOutput (append_unique o a)
  unfolding append_unique
  append_unique-IsOutput o a h = elim (Bool-cases (m.is_nil a || any_of (same (m.text a)) o.seen)) [
    | inl e ↦ rw (e, append_unique) h
    | inr e ↦
        rw (e, append_unique)
          (record {
            seen_texts = rw (map-append, reverse-append, h.seen_texts);
            distinct = Nodup-cons.1 (any_of-same (m.text a) o.seen (ground arith), h.distinct);
          })
  ]

  pub append_all_unique-IsOutput :
      (o : Output A) (l : List A) → IsOutput o → IsOutput (append_all_unique o l)
  unfolding append_all_unique
  append_all_unique-IsOutput o [] h = h
  append_all_unique-IsOutput o (a ∷ l) h =
      append_all_unique-IsOutput (append_unique o a) l (append_unique-IsOutput o a h)

  -- What was seen stays seen.
  pub append_unique-mem :
      (t : Bytes) (o : Output A) (a : A) → Mem t o.seen → Mem t (append_unique o a).seen
  unfolding append_unique
  append_unique-mem t o a h = elim (Bool-cases (m.is_nil a || any_of (same (m.text a)) o.seen)) [
    | inl e ↦ rw (e, append_unique) h
    | inr e ↦ rw (e, append_unique) (mem-cons.1 (Or.inr h))
  ]

  pub append_unique-mem_self :
      (o : Output A) (a : A) → m.is_nil a ≡ false → Mem (m.text a) (append_unique o a).seen
  unfolding append_unique
  append_unique-mem_self o a n = elim (Bool-cases (any_of (same (m.text a)) o.seen)) [
    | inl e ↦ rw (n, e, append_unique) (any_of-same_mem (m.text a) o.seen e)
    | inr e ↦ rw (n, e, append_unique) mem-cons_self
  ]

  pub append_all_unique-mem :
      (t : Bytes) (o : Output A) (l : List A) → Mem t o.seen → Mem t (append_all_unique o l).seen
  unfolding append_all_unique
  append_all_unique-mem t o [] h = h
  append_all_unique-mem t o (a ∷ l) h =
      append_all_unique-mem t (append_unique o a) l (append_unique-mem t o a h)

  pub append_unique-All {κ} :
      (P : A → Type κ) (o : Output A) (a : A) → P a → All P o.out → All P (append_unique o a).out
  unfolding append_unique
  append_unique-All P o a p h = elim (Bool-cases (m.is_nil a || any_of (same (m.text a)) o.seen)) [
    | inl e ↦ rw (e, append_unique) h
    | inr e ↦ rw (e, append_unique) (All-append P o.out (a ∷ []) h (p, tt))
  ]

  pub append_all_unique-All {κ} :
      (P : A → Type κ) (o : Output A) (l : List A)
      → All P l
      → All P o.out
      → All P (append_all_unique o l).out
  unfolding append_all_unique
  append_all_unique-All P o [] p h = h
  append_all_unique-All P o (a ∷ l) p h =
      append_all_unique-All P (append_unique o a) l p.1 (append_unique-All P o a p.0 h)
