-- ===== src/Context.antt =====
-- Go's context.Context, durations and time, as far as the program uses them. Times and durations
-- are nanoseconds. A context ends at a time that is known only to the environment.
use someguy.Prelude.{ℕ, ◌*◌, Option, none, some, Bool, false, leb}

abbrev pub second : ℕ
second = 1000000000

abbrev pub minute : ℕ
minute = 60 * second

abbrev pub hour : ℕ
hour = 60 * minute

pub record Ctx : Type 0 where
  pub done_at : Option ℕ

-- ctx.Err() != nil at the time `now`.
abbrev pub ctx_err : Ctx → ℕ → Bool
ctx_err ctx now = elim ctx.done_at [ none ↦ false | some t ↦ leb t now ]
