-- ===== src/Cli/Flags/Typed.antt =====
-- The tables of flags of main.go, and the reads that the actions of start and ask make of them.
use someguy.Prelude.{
  ℕ, ◌-◌, ◌≡◌, refl, sym, subst, inl, inr, ◌&&◌, Option, none, some, List, [], ◌∷◌, ◌++◌, map, All,
  All-imp, arith, Option-cases, ◌==◌, leb, if◌then◌else◌,
}
use someguy.Prelude.Bytes.{Bytes, codes, same}
use someguy.Prelude.Int.{ℤ}
use someguy.Cli.Flags.{
  FlagValue, FlagKind, text_kind, truth_kind, number_kind, duration_kind, texts_kind, size_kind,
  fraction_kind, kind_of, Flag, start_flags, ask_flags, declared, read, start_reads, ask_reads,
}

-- A flag of a type can be read at a type: at its own, or as an int if it is a uint64.
abbrev pub Suits : FlagKind → FlagKind → Type 0
Suits text_kind text_kind = Unit
Suits truth_kind truth_kind = Unit
Suits number_kind number_kind = Unit
Suits duration_kind duration_kind = Unit
Suits texts_kind texts_kind = Unit
Suits size_kind size_kind = Unit
Suits size_kind number_kind = Unit
Suits fraction_kind fraction_kind = Unit
Suits _ _ = ⊥

abbrev DeclaredAt : List Flag → Bytes × FlagKind → Type 0
DeclaredAt flags (name, kind) = elim (declared name flags) [
  | none ↦ ⊥
  | some f ↦ Suits (kind_of f.value) kind
]

-- The values that are given for flags have the flags' types.
abbrev pub IsTyped : List Flag → (Bytes → Option FlagValue) → Type 0
IsTyped flags given =
    (name : Bytes) (f : Flag) (v : FlagValue)
    → declared name flags ≡ some f
    → given name ≡ some v
    → kind_of v ≡ kind_of f.value

-- A read finds a value of a type that suits.
abbrev pub Finds : List Flag → (Bytes → Option FlagValue) → Bytes × FlagKind → Type 0
Finds flags given (name, kind) =
    (v : FlagValue) × (read given name flags ≡ some v) × Suits (kind_of v) kind

read-Finds :
    (flags : List Flag) (given : Bytes → Option FlagValue)
    → IsTyped flags given
    → (r : Bytes × FlagKind) → DeclaredAt flags r
    → Finds flags given r
unfolding read
read-Finds flags given typed (name, kind) d = elim (Option-cases (declared name flags)) [
  | inl n ↦ absurd (rw (n, DeclaredAt) at d)
  | inr (f, q) ↦ elim (Option-cases (given name)) [
    | inl n ↦ (f.value, ground (arith, q, n), rw (q, DeclaredAt) at d)
    | inr (v, g) ↦ (
      v,
      ground (arith, q, g),
      subst (λ k. Suits k kind) (sym (typed name f v q g)) (rw (q, DeclaredAt) at d),
    )
  ]
]

start_reads_declared :
    (auto : Bytes) (recent_ttl : ℤ) → All (DeclaredAt (start_flags auto recent_ttl)) start_reads
unfolding start_flags start_reads declared
start_reads_declared auto recent_ttl = omega arith

ask_reads_declared : (auto : Bytes) → All (DeclaredAt (ask_flags auto)) ask_reads
unfolding ask_flags ask_reads declared
ask_reads_declared auto = omega arith

-- Whatever values of their types are given for some of the flags, each read of the actions of start and
-- of ask is of a flag that its command declares and finds a value of the type that it is read
-- at, except that a uint64 is read as an int.
pub reads_typed :
    (auto : Bytes) (recent_ttl : ℤ) (given : Bytes → Option FlagValue)
    → IsTyped (start_flags auto recent_ttl) given
    → IsTyped (ask_flags auto) given
    → All (Finds (start_flags auto recent_ttl) given) start_reads
      × All (Finds (ask_flags auto) given) ask_reads
reads_typed auto recent_ttl given s a = (
  All-imp (DeclaredAt (start_flags auto recent_ttl)) (Finds (start_flags auto recent_ttl) given)
      start_reads (read-Finds (start_flags auto recent_ttl) given s)
      (start_reads_declared auto recent_ttl),
  All-imp (DeclaredAt (ask_flags auto)) (Finds (ask_flags auto) given) ask_reads
      (read-Finds (ask_flags auto) given a) (ask_reads_declared auto),
)

abbrev upper : ℕ → ℕ
upper c = if c == b'-' then b'_' else if leb b'a' c && leb c b'z' then c - 32 else c

abbrev env_name : Bytes → Bytes
env_name name = codes "SOMEGUY_" ++ map upper name

abbrev env_vars_of : Bytes → List Bytes
env_vars_of name =
    (if same name (codes "libp2p-connmgr-grace")
      then codes "SOMEGUY_LIBP2P_CONNMGR_GRACE_PERIOD"
      else env_name name)
    ∷ []

-- The environment variable of a flag of start is named after the flag, but for one.
flags_env :
    (auto : Bytes) (recent_ttl : ℤ)
    → map (λ f. f.env_vars) (start_flags auto recent_ttl)
      ≡ map (λ f. env_vars_of f.name) (start_flags auto recent_ttl)
unfolding start_flags same
flags_env auto recent_ttl = refl
