-- ===== src/DnsAddr/Expand.antt =====
-- dnsaddr.go: expand, appendUnique and resolveAddrs.
use someguy.Prelude.{
  ℕ, zero, suc, ◌-◌, Bool, true, false, not, ◌&&◌, ◌||◌, List, [], ◌∷◌, ◌++◌, any_of, is_empty,
  if◌then◌else◌, ◌==◌,
}
use someguy.Prelude.Bytes.{Bytes, same}
use someguy.Multiaddr.{Multiaddr}
use someguy.Lru.{Lru}
use someguy.Context.{Ctx, ctx_err}
use someguy.DnsAddr.Host.{split_peer_id, resolvable_dns_addr, is_dns_addr, contains_dns_addr}
use someguy.DnsAddr.Lookup.{lookup}
use someguy.DnsAddr.Types.{CacheEntry, Dns, State, recursion_limit, max_resolved_per_record}

-- id != "" && id != pid
unfoldable pub names_other_peer : Bytes → Bytes → Bool
names_other_peer pid id = not (is_empty id) && not (same id pid)

-- What the expansion has gathered, and whether it is whole.
pub record Gathered (A C : Type 0) : Type 0 where
  pub out : List A
  pub complete : Bool
  pub state : State C

-- The addresses of the response so far, and the texts in `seen`.
pub record Output (A : Type 0) : Type 0 where
  pub out : List A
  pub seen : List Bytes

module _ {A : Type 0} ⦃m : Multiaddr A⦄ where
  unfoldable pub append_unique : Output A → A → Output A
  append_unique o addr =
      if m.is_nil addr || any_of (same (m.text addr)) o.seen
      then o
      else record { out = o.out ++ addr ∷ []; seen = m.text addr ∷ o.seen }

  -- for _, r := range resolved { appendUnique(&out, seen, r) }
  unfoldable pub append_all_unique : Output A → List A → Output A
  unfolding append_unique
  append_all_unique o [] = o
  append_all_unique o (a ∷ rest) = append_all_unique (append_unique o a) rest

module _ {A C : Type 0} ⦃m : Multiaddr A⦄ (cache : Lru C Bytes (CacheEntry A)) (dns : Dns A)
    (ctx : Ctx) (pid : Bytes) where
  -- One result of the lookup with the room that is left; `nested` is expand at depth - 1.
  unfoldable pub take_result : (A → State C → Gathered A C) → A → Gathered A C → Gathered A C
  unfolding names_other_peer
  take_result nested r g =
      let (id, rest) = split_peer_id r in
      if names_other_peer pid id || m.is_nil rest
      then g
      else if is_dns_addr rest
      then (let n = nested rest g.state in
          record { out = g.out ++ n.out; complete = g.complete && n.complete; state = n.state })
      else record {
        out = g.out ++ rest ∷ [];
        complete = g.complete;
        state = record g.state { room = g.state.room - 1 };
      }

  -- The loop over the results of the lookup.
  unfoldable pub take_results : (A → State C → Gathered A C) → List A → Gathered A C → Gathered A C
  unfolding take_result
  take_results nested [] g = g
  take_results nested (r ∷ rs) g = elim (g.state.room == 0) [
    | true ↦ record g { complete = false }
    | false ↦ take_results nested rs (take_result nested r g)
  ]

  unfoldable pub expand : ℕ → A → State C → Gathered A C
  unfolding take_results
  expand zero addr s = record { out = []; complete = false; state = s }
  expand (suc depth) addr s =
      let nested = expand depth in
      let bare = (split_peer_id addr).1 in
      if s.room == 0 || ctx_err ctx s.world.now || not (resolvable_dns_addr bare)
      then record { out = []; complete = false; state = s }
      else let ((results, ok), s') = lookup cache dns ctx bare s in
        take_results nested results (record { out = []; complete = ok; state = s' })

  -- One address of the record.
  unfoldable pub resolve_addr : Bool → A → Output A × State C → Output A × State C
  unfolding expand append_all_unique
  resolve_addr keep_original addr (o, s) =
      if m.is_nil addr || not (is_dns_addr addr)
      then (append_unique o addr, s)
      else if names_other_peer pid (split_peer_id addr).0
      then (o, s)
      else let g = expand recursion_limit addr s in
        let o' = append_all_unique o g.out in
        if keep_original || not g.complete || is_empty g.out
        then (append_unique o' addr, g.state)
        else (o', g.state)

  unfoldable pub resolve_each : Bool → List A → Output A × State C → Output A × State C
  unfolding resolve_addr
  resolve_each keep_original [] os = os
  resolve_each keep_original (a ∷ rest) os =
      resolve_each keep_original rest (resolve_addr keep_original a os)

  unfoldable pub resolve_addrs : Bool → List A → State C → List A × State C
  unfolding resolve_each
  resolve_addrs keep_original addrs s =
      if contains_dns_addr addrs
      then (let (o, s') =
            resolve_each keep_original addrs
              (record { out = []; seen = [] }, record s { room = max_resolved_per_record }) in
          (o.out, s'))
      else (addrs, s)
