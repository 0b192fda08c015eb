-- ===== src/Routers/Ipns.antt =====
-- server_routers.go: isExpiredIPNSRecord and GetIPNS of parallelRouter.
--
-- The routers answer in any order: what the loop receives, round by round, is a list.
use someguy.Prelude.{ℕ, Bool, false, Option, none, some, List, [], ◌∷◌, if◌then◌else◌, ltb}
use someguy.Records.{GoError, not_found, not_supported, join_errors}
use someguy.Routers.Compose.{Fallible, ok, fails}

pub data ValidityType : Type 0 where
  validity_eol validity_other : ValidityType

-- ipns.Record of boxo; none is an error.
pub record IpnsRecords (R : Type 0) : Type 0 where
  pub validity_type : R → Option ValidityType
  pub validity : R → Option ℕ

-- A router's answer.
pub record IpnsAnswer (R : Type 0) : Type 0 where
  pub val : Option R
  pub err : Option GoError

-- A round of the loop: an answer at a time, with ctx.Err() at that time, or ctx.Done().
pub data Round (R : Type 0) : Type 0 where
  arrives : (now : ℕ) → IpnsAnswer R → (ctx_err : Option GoError) → Round R
  ctx_done : GoError → Round R

module _ {R : Type 0} (ipns : IpnsRecords R) where
  unfoldable pub is_expired_ipns_record : ℕ → Option R → Bool
  is_expired_ipns_record now none = false
  is_expired_ipns_record now (some r) = elim (ipns.validity_type r) [
    | none ↦ false
    | some validity_other ↦ false
    | some validity_eol ↦ elim (ipns.validity r) [ none ↦ false | some t ↦ ltb t now ]
  ]

  -- The end of the loop.
  unfoldable pub no_answer : Option GoError → Fallible (Option R)
  no_answer none = fails not_found
  no_answer (some e) = fails e

  unfoldable pub receive : List (Round R) → Option GoError → Fallible (Option R)
  unfolding is_expired_ipns_record no_answer join_errors
  receive [] errs = no_answer errs
  receive (ctx_done e ∷ rounds) errs = fails e
  receive (arrives now a ctx_err ∷ rounds) errs = elim a.err [
    | none ↦
        let rest = receive rounds errs in
        if is_expired_ipns_record now a.val then rest else ok a.val
    | some not_found ↦ receive rounds errs
    | some not_supported ↦ receive rounds errs
    | some e ↦ elim ctx_err [ none ↦ receive rounds (join_errors errs (some e)) | some c ↦ fails c ]
  ]

  -- The answer of the only router, at a time.
  unfoldable pub sole_answer : ℕ → IpnsAnswer R → Fallible (Option R)
  unfolding is_expired_ipns_record
  sole_answer now a = elim a.err [
    | some e ↦ fails e
    | none ↦ if is_expired_ipns_record now a.val then fails not_found else ok a.val
  ]

  unfoldable pub get_ipns :
      {X : Type 0} → (X → IpnsAnswer R) → List X → ℕ → List (Round R) → Fallible (Option R)
  unfolding sole_answer receive
  get_ipns call [] now rounds = fails not_found
  get_ipns call (x ∷ []) now rounds = sole_answer now (call x)
  get_ipns call (x ∷ y ∷ xs) now rounds = receive rounds none
