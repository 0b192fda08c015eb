-- ===== src/Prelude/Bytes.antt =====
-- Go strings and byte slices as lists of byte values, with == and bytes.Compare.
use Prim.Native.Nat.{ℕ, ◌+◌}
use Prim.Native.Char.{code}
use Prim.Native.String.{String}
use mathlib.Core.Path.{◌≡◌, refl, sym, ◌∙◌}
use mathlib.Core.Logic.{◌↔◌, inl, inr}
use mathlib.Core.Bool.{Bool, true, false, ◌&&◌, false≢true}
use mathlib.Core.List.{List, [], ◌∷◌}
use mathlib.Core.Option
use mathlib.Core.Option.{Option, none, some}
use native.Mathlib.Omega.{arith}
use someguy.Prelude.Tests.{◌==◌, Bool-cases, ltb, leb, if◌then◌else◌}
use someguy.Prelude.Int.{ℤ, pos, negsuc, is_negative}

abbrev pub Bytes : Type 0
Bytes = List ℕ

-- The bytes of a text in ASCII.
abbrev pub codes : String → Bytes
codes String.[] = []
codes (String.◌∷◌ c s) = code c ∷ codes s

-- s == t on strings.
unfoldable pub same : Bytes → Bytes → Bool
same [] [] = true
same (x ∷ xs) (y ∷ ys) = x == y && same xs ys
same _ _ = false

pub same_iff : (s t : Bytes) → (same s t ≡ true) ↔ (s ≡ t)
unfolding same
same_iff [] [] = (λ _. refl, λ _. refl)
same_iff (x ∷ xs) [] = ground arith
same_iff [] (y ∷ ys) = ground arith
same_iff (x ∷ xs) (y ∷ ys) = ground (arith, same_iff xs ys)

-- bytes.Compare: lexicographic, -1, 0 or 1.
unfoldable pub bytes_compare : Bytes → Bytes → ℤ
bytes_compare [] [] = pos 0
bytes_compare [] (y ∷ ys) = negsuc 0
bytes_compare (x ∷ xs) [] = pos 1
bytes_compare (x ∷ xs) (y ∷ ys) =
    let rest = bytes_compare xs ys in if ltb x y then negsuc 0 else if ltb y x then pos 1 else rest

pub bytes_compare-eq : (s t : Bytes) → bytes_compare s t ≡ pos 0 → s ≡ t
unfolding bytes_compare
bytes_compare-eq [] [] h = refl
bytes_compare-eq [] (y ∷ ys) h = ground arith
bytes_compare-eq (x ∷ xs) [] h = ground arith
bytes_compare-eq (x ∷ xs) (y ∷ ys) h = ground (arith, bytes_compare-eq xs ys)

pub bytes_compare_antisymm :
    (s t : Bytes)
    → is_negative (bytes_compare s t) ≡ false
    → is_negative (bytes_compare t s) ≡ false
    → s ≡ t
unfolding bytes_compare
bytes_compare_antisymm [] [] h k = refl
bytes_compare_antisymm [] (y ∷ ys) h k = ground arith
bytes_compare_antisymm (x ∷ xs) [] h k = ground arith
bytes_compare_antisymm (x ∷ xs) (y ∷ ys) h k = ground (arith, bytes_compare_antisymm xs ys)

pub bytes_compare_asymm :
    (s t : Bytes) → is_negative (bytes_compare s t) ≡ true → is_negative (bytes_compare t s) ≡ false
unfolding bytes_compare
bytes_compare_asymm [] [] h = ground arith
bytes_compare_asymm [] (y ∷ ys) h = refl
bytes_compare_asymm (x ∷ xs) [] h = ground arith
bytes_compare_asymm (x ∷ xs) (y ∷ ys) h = ground (arith, bytes_compare_asymm xs ys)

pub bytes_compare_trans :
    (s t u : Bytes)
    → is_negative (bytes_compare s t) ≡ true
    → is_negative (bytes_compare t u) ≡ true
    → is_negative (bytes_compare s u) ≡ true
unfolding bytes_compare
bytes_compare_trans [] t [] h k = ground arith
bytes_compare_trans [] t (z ∷ zs) h k = refl
bytes_compare_trans (x ∷ xs) [] u h k = ground arith
bytes_compare_trans (x ∷ xs) (y ∷ ys) [] h k = ground arith
bytes_compare_trans (x ∷ xs) (y ∷ ys) (z ∷ zs) h k = ground (arith, bytes_compare_trans xs ys zs)

pub bytes_dec : (s t : Bytes) → Dec (s ≡ t)
bytes_dec s t = elim (Bool-cases (same s t)) [
  | inl e ↦ yes ((same_iff s t).0 e)
  | inr e ↦ no (λ p. false≢true (sym e ∙ (same_iff s t).1 p))
]

-- c + ('a' - 'A') for a capital letter of ASCII.
unfoldable pub ascii_lower_byte : ℕ → ℕ
ascii_lower_byte c = if leb b'A' c && leb c b'Z' then c + 32 else c

-- strings.HasPrefix
unfoldable pub has_prefix : Bytes → Bytes → Bool
has_prefix s [] = true
has_prefix [] (p ∷ ps) = false
has_prefix (c ∷ s) (p ∷ ps) = c == p && has_prefix s ps

abbrev cons_first : ℕ → List Bytes → List Bytes
cons_first c [] = (c ∷ []) ∷ []
cons_first c (part ∷ parts) = (c ∷ part) ∷ parts

-- strings.Split by one byte: always at least one part.
unfoldable pub split_on : ℕ → Bytes → List Bytes
split_on sep [] = [] ∷ []
split_on sep (c ∷ s) =
    let rest = split_on sep s in if c == sep then [] ∷ rest else cons_first c rest

-- strings.TrimSuffix, and strings.CutSuffix as an option.
unfoldable pub cut_suffix : Bytes → Bytes → Option Bytes
unfolding same
cut_suffix suffix [] = if same [] suffix then some [] else none
cut_suffix suffix (c ∷ s) =
    let rest = cut_suffix suffix s in
    if same (c ∷ s) suffix then some [] else Option.map (λ r. c ∷ r) rest

unfoldable pub trim_suffix : Bytes → Bytes → Bytes
unfolding cut_suffix
trim_suffix suffix s = elim (cut_suffix suffix s) [ none ↦ s | some r ↦ r ]
