-- ===== src/Examples/Cli.antt =====
-- Flags that are given to the commands start and ask.
use someguy.Prelude.{
  ◌≡◌, inl, inr, Option, none, some, All, arith, Bool-cases, if◌then◌else◌, subst,
}
use someguy.Prelude.Bytes.{Bytes, codes, same, same_iff}
use someguy.Prelude.Int.{pos}
use someguy.Cli.Flags.{
  FlagValue, text, kind_of, text_kind, Flag, start_flags, ask_flags, declared, start_reads,
  ask_reads,
}
use someguy.Cli.Flags.Typed.{IsTyped, Finds, reads_typed}

-- --dht standard
abbrev given : Bytes → Option FlagValue
given name = if same name (codes "dht") then some (text (codes "standard")) else none

given_text :
    (name : Bytes) (v : FlagValue)
    → given name ≡ some v
    → (name ≡ codes "dht") × (kind_of v ≡ text_kind)
given_text name v h = elim (Bool-cases (same name (codes "dht"))) [
  | inl e ↦ ((same_iff name (codes "dht")).0 e, ground arith)
  | inr e ↦ absurd (ground arith)
]

dht_is_text :
    (f : Flag)
    → declared (codes "dht") (start_flags (codes "auto") (pos 1)) ≡ some f
    → kind_of f.value ≡ text_kind
unfolding declared start_flags
dht_is_text f h = ground arith

dht_is_no_flag : (f : Flag) → declared (codes "dht") (ask_flags (codes "auto")) ≡ some f → ⊥
unfolding declared ask_flags
dht_is_no_flag f h = ground arith

start-IsTyped : IsTyped (start_flags (codes "auto") (pos 1)) given
start-IsTyped name f v d g =
    let (is_dht, k) = given_text name v g in
    cc (
      k,
      dht_is_text f
          (subst (λ n. declared n (start_flags (codes "auto") (pos 1)) ≡ some f) is_dht d),
    )

ask-IsTyped : IsTyped (ask_flags (codes "auto")) given
ask-IsTyped name f v d g =
    let (is_dht, k) = given_text name v g in
    absurd (dht_is_no_flag f (subst (λ n. declared n (ask_flags (codes "auto")) ≡ some f) is_dht d))

reads_typed_example :
    All (Finds (start_flags (codes "auto") (pos 1)) given) start_reads
    × All (Finds (ask_flags (codes "auto")) given) ask_reads
reads_typed_example = reads_typed (codes "auto") (pos 1) given start-IsTyped ask-IsTyped
