-- ===== src/Prelude/Suffix.antt =====
-- strings.CutSuffix and strings.TrimSuffix, and the texts that end with a suffix.
use someguy.Prelude.{
  ℕ, ◌≡◌, refl, ap, inl, inr, Bool, true, false, none, some, [], ◌∷◌, ◌++◌, length, length-append,
  arith, Bool-cases, Option-cases,
}
use someguy.Prelude.Bytes.{Bytes, same, same_iff, cut_suffix, trim_suffix}

pub same_refl : (s : Bytes) → same s s ≡ true
same_refl s = (same_iff s s).1 refl

same_longer : (c : ℕ) (b s : Bytes) → same (c ∷ (b ++ s)) s ≡ false
same_longer c b s = elim (Bool-cases (same (c ∷ (b ++ s)) s)) [
  | inl e ↦
      let longer = ap length ((same_iff (c ∷ (b ++ s)) s).0 e) in
      absurd (omega (arith, longer, length-append b s))
  | inr e ↦ e
]

pub cut_suffix-append : (s b : Bytes) → cut_suffix s (b ++ s) ≡ some b
unfolding cut_suffix same
cut_suffix-append [] [] = refl
cut_suffix-append (c ∷ s) [] = ground (arith, same_refl (c ∷ s))
cut_suffix-append s (c ∷ b) = rw (same_longer c b s, cut_suffix-append s b)

pub append_of_cut_suffix : (s u b : Bytes) → cut_suffix s u ≡ some b → u ≡ b ++ s
unfolding cut_suffix
append_of_cut_suffix s [] b h = ground (arith, same_iff [] s)
append_of_cut_suffix s (c ∷ u) b h = elim (Bool-cases (same (c ∷ u) s)) [
  | inl e ↦ ground (arith, same_iff (c ∷ u) s)
  | inr e ↦ elim (Option-cases (cut_suffix s u)) [
    | inl n ↦ absurd (ground arith)
    | inr (r, q) ↦ ground (arith, append_of_cut_suffix s u r q)
  ]
]

-- strings.HasSuffix
unfoldable pub has_suffix : Bytes → Bytes → Bool
unfolding cut_suffix
has_suffix s suffix = elim (cut_suffix suffix s) [ none ↦ false | some b ↦ true ]

pub trim_suffix-append : (s b : Bytes) → trim_suffix s (b ++ s) ≡ b
unfolding trim_suffix
trim_suffix-append s b = rw (cut_suffix-append s b, trim_suffix)
