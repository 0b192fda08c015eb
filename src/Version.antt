-- ===== src/Version.antt =====
-- version.go: the text of the version, from version.json and the build information.
use someguy.Prelude.{
  ℕ, zero, suc, Bool, false, Option, none, some, List, [], ◌∷◌, ◌++◌, is_empty, if◌then◌else◌,
}
use someguy.Prelude.Bytes.{Bytes, codes, same}

pub record Vcs : Type 0 where
  pub revision : Bytes
  pub day : Bytes
  pub dirty : Bool

-- s[:n]; none is a panic.
abbrev first_bytes : ℕ → Bytes → Option Bytes
first_bytes zero s = some []
first_bytes (suc n) [] = none
first_bytes (suc n) (c ∷ s) = elim (first_bytes n s) [ none ↦ none | some p ↦ some (c ∷ p) ]

-- `day_of` is the day in UTC of an RFC 3339 time, formatted, and the zero day for another text.
module _ (day_of : Bytes → Bytes) where
  unfoldable pub read_settings : List (Bytes × Bytes) → Vcs → Option Vcs
  unfolding same
  read_settings [] vcs = some vcs
  read_settings ((key, value) ∷ settings) vcs =
      if same key (codes "vcs.revision")
      then elim (first_bytes 7 value) [
        | none ↦ none
        | some revision ↦ read_settings settings (record vcs { revision = revision })
      ]
      else if same key (codes "vcs.time")
      then read_settings settings (record vcs { day = day_of value })
      else if same key (codes "vcs.modified")
      then read_settings settings (record vcs { dirty = same value (codes "true") })
      else read_settings settings vcs

  abbrev release_text : Bytes → Vcs → Bytes
  release_text release vcs =
      let revision = if vcs.dirty then vcs.revision ++ codes "-dirty" else vcs.revision in
      if is_empty revision
      then release ++ codes " dev-build"
      else release ++ codes " " ++ vcs.day ++ codes "-" ++ revision

  -- The release of version.json, and the settings of the build information if there is any; none
  -- is a panic.
  unfoldable pub build_version : Bytes → Option (List (Bytes × Bytes)) → Option Bytes
  unfolding read_settings
  build_version release none = some (release ++ codes " dev-build")
  build_version release (some settings) =
      elim (read_settings settings (record { revision = []; day = []; dirty = false })) [
        | none ↦ none
        | some vcs ↦ some (release_text release vcs)
      ]
