-- ===== src/Routers/Race.antt =====
-- GetIPNS of parallelRouter: the race of the routers' answers.
use someguy.Prelude.{
  ℕ, ◌≡◌, ◌⊎◌, inl, inr, Bool, true, false, Option, none, some, List, [], ◌∷◌, All, arith,
  Option-cases,
}
use someguy.Records.{GoError, join_errors}
use someguy.Routers.Compose.{ok}
use someguy.Routers.Ipns.{
  IpnsRecords, IpnsAnswer, Round, arrives, ctx_done, is_expired_ipns_record, receive, get_ipns,
  no_answer,
}

module _ {R : Type 0} (ipns : IpnsRecords R) where
  -- An answer that is served: no error, and no record that has expired when it arrives.
  abbrev pub is_live : Round R → Bool
  is_live (ctx_done e) = false
  is_live (arrives now a ctx_err) = elim a.err [
    | some e ↦ false
    | none ↦ elim (is_expired_ipns_record ipns now a.val) [ true ↦ false | false ↦ true ]
  ]

  -- A round that does not end the request: an answer that arrives while its context has not ended.
  abbrev pub Waits : Round R → Type 0
  Waits (ctx_done e) = ⊥
  Waits (arrives now a ctx_err) = ctx_err ≡ none

  -- What a round serves.
  abbrev pub served : Round R → Option R
  served (ctx_done e) = none
  served (arrives now a ctx_err) = a.val

  -- The first live answer.
  unfoldable pub first_live : List (Round R) → Option (Round R)
  first_live [] = none
  first_live (x ∷ xs) =
      let rest = first_live xs in elim (is_live x) [ true ↦ some x | false ↦ rest ]

  receive_first :
      (rounds : List (Round R)) (errs : Option GoError) (x : Round R)
      → All Waits rounds
      → first_live rounds ≡ some x
      → receive ipns rounds errs ≡ ok (served x)
  unfolding receive first_live
  receive_first [] errs x w h = absurd (ground arith)
  receive_first (ctx_done e ∷ rounds) errs x w h = absurd w.0
  receive_first (arrives now a c ∷ rounds) errs x w h = elim (Option-cases a.err) [
    | inl n ↦ ground (arith, receive_first rounds errs x w.1)
    | inr (e, q) ↦ ground (
      arith,
      w.0,
      receive_first rounds errs x w.1,
      receive_first rounds (join_errors errs (some e)) x w.1,
    )
  ]

  -- With two routers or more the first answer to arrive that is neither an error nor an expired record is
  -- served, in whatever order the answers arrive, if the request's context does not end
  -- before: neither an expired record nor a router that fails wins the race.
  pub get_ipns_first :
      {X : Type 0} (call : X → IpnsAnswer R) (r s : X) (rs : List X) (now : ℕ)
      (rounds : List (Round R)) (x : Round R)
      → All Waits rounds
      → first_live rounds ≡ some x
      → get_ipns ipns call (r ∷ s ∷ rs) now rounds ≡ ok (served x)
  unfolding get_ipns
  get_ipns_first call r s rs now rounds x w h = receive_first rounds none x w h

  -- What is served came in a round that is live.
  abbrev pub FromLive : List (Round R) → Option R → Type 0
  FromLive [] v = ⊥
  FromLive (x ∷ xs) v = ((is_live x ≡ true) × (served x ≡ v)) ⊎ FromLive xs v

  receive-FromLive :
      (rounds : List (Round R)) (errs : Option GoError) (v : Option R)
      → receive ipns rounds errs ≡ ok v
      → FromLive rounds v
  unfolding receive no_answer
  receive-FromLive [] errs v h = ground arith
  receive-FromLive (ctx_done e ∷ rounds) errs v h = ground arith
  receive-FromLive (arrives now a c ∷ rounds) errs v h = elim (Option-cases a.err) [
    | inl n ↦ ground (arith, receive-FromLive rounds errs v)
    | inr (e, q) ↦ ground (
      arith,
      receive-FromLive rounds errs v,
      receive-FromLive rounds (join_errors errs (some e)) v,
    )
  ]

  -- Whatever arrives, also when the context ends in between: a record that GetIPNS serves, with two
  -- routers or more, came without an error and had not expired when it arrived.
  pub get_ipns-FromLive :
      {X : Type 0} (call : X → IpnsAnswer R) (r s : X) (rs : List X) (now : ℕ)
      (rounds : List (Round R)) (v : Option R)
      → get_ipns ipns call (r ∷ s ∷ rs) now rounds ≡ ok v
      → FromLive rounds v
  unfolding get_ipns
  get_ipns-FromLive call r s rs now rounds v h = receive-FromLive rounds none v h
