-- ===== src/Client/Prints.antt =====
-- Which results a command of the client prints.
use someguy.Prelude.{
  ◌≡◌, refl, inl, inr, ◌⊎◌, true, false, Option, none, some, List, [], ◌∷◌, ◌++◌, map, All, arith,
  Bool-cases, Option-cases, ◌≢◌,
}
use someguy.Records.{GoError, Result}
use someguy.Client.{is_deadline_exceeded, Output, print_results}

module _ {T : Type 0} (print : T → Option GoError) (nil_value : T) where
  -- What makes a command stop: the end, a timeout, an error of a result or of printing.
  pub data Stops : List (Result T) → Option GoError → Type 0 where
    at_end : Stops [] none
    at_timeout :
        {r : Result T} {rest : List (Result T)} {e : GoError}
        → r.err ≡ some e
        → is_deadline_exceeded e ≡ true
        → Stops (r ∷ rest) none
    at_error :
        {r : Result T} {rest : List (Result T)} {e : GoError}
        → r.err ≡ some e
        → is_deadline_exceeded e ≡ false
        → Stops (r ∷ rest) (some e)
    at_print :
        {r : Result T} {rest : List (Result T)} {e : GoError} {t : T}
        → r.err ≡ none
        → r.val ≡ some t
        → print t ≡ some e
        → Stops (r ∷ rest) (some e)

  abbrev pub plain : T → Result T
  plain t = record { val = some t; err = none }

  -- A result has a value or an error.
  abbrev pub IsFilled : Result T → Type 0
  IsFilled r = (r.val ≢ none) ⊎ (r.err ≢ none)

  plain_of : (r : Result T) (t : T) → r.val ≡ some t → r.err ≡ none → r ≡ plain t
  plain_of r t v e = cc (v, e)

  IsFilled-value : (r : Result T) → IsFilled r → r.err ≡ none → (t : T) × (r.val ≡ some t)
  IsFilled-value r (inr n) e = absurd (n e)
  IsFilled-value r (inl n) e = elim (Option-cases r.val) [ inl v ↦ absurd (n v) | inr q ↦ q ]

  abbrev pub IsPrefix : List (Result T) → Output T → Type 0
  IsPrefix results out =
      (rest : List (Result T)) × (results ≡ map plain out.printed ++ rest)
      × Stops rest out.err
      × All (λ t. print t ≡ none) out.printed

  -- One round, by what the result is.
  abbrev round : Result T → List (Result T) → Output T
  round r results = print_results print nil_value (r ∷ results)

  round_timeout :
      (r : Result T) (results : List (Result T)) (e : GoError)
      → r.err ≡ some e
      → is_deadline_exceeded e ≡ true
      → round r results ≡ record { printed = []; err = none }
  unfolding print_results
  round_timeout r results e h d = ground arith

  round_error :
      (r : Result T) (results : List (Result T)) (e : GoError)
      → r.err ≡ some e
      → is_deadline_exceeded e ≡ false
      → round r results ≡ record { printed = []; err = some e }
  unfolding print_results
  round_error r results e h d = ground arith

  round_print_error :
      (r : Result T) (results : List (Result T)) (t : T) (e : GoError)
      → r.err ≡ none
      → r.val ≡ some t
      → print t ≡ some e
      → round r results ≡ record { printed = []; err = some e }
  unfolding print_results
  round_print_error r results t e h v p = ground arith

  round_printed :
      (r : Result T) (results : List (Result T)) (t : T)
      → r.err ≡ none
      → r.val ≡ some t
      → print t ≡ none
      → let rest = print_results print nil_value results in
        round r results ≡ record { printed = t ∷ rest.printed; err = rest.err }
  unfolding print_results
  round_printed r results t h v p = ground arith

  stopped :
      (r : Result T) (results : List (Result T)) (e : GoError)
      → r.err ≡ some e
      → IsPrefix (r ∷ results) (round r results)
  stopped r results e h = elim (Bool-cases (is_deadline_exceeded e)) [
    | inl d ↦ rw (round_timeout r results e h d) (r ∷ results, refl, at_timeout h d, tt)
    | inr d ↦ rw (round_error r results e h d) (r ∷ results, refl, at_error h d, tt)
  ]

  -- A command prints the values of the results before the one at which it stops, each once and in order,
  -- and prints none after it. It stops without an error at the end or at a timeout only. Every
  -- result has a value or an error.
  pub print_results_lem :
      (results : List (Result T))
      → All IsFilled results
      → IsPrefix results (print_results print nil_value results)
  unfolding print_results
  print_results_lem [] h = ([], refl, at_end, tt)
  print_results_lem (r ∷ results) (h, hs) = elim (Option-cases r.err) [
    | inr (e, q) ↦ stopped r results e q
    | inl q ↦
        let (t, v) = IsFilled-value r h q in
        elim (Option-cases (print t)) [
          | inr (e, p) ↦
              rw (round_print_error r results t e q v p) (r ∷ results, refl, at_print q v p, tt)
          | inl p ↦
              let (rest, split, stops, all) = print_results_lem results hs in
              rw (round_printed r results t q v p)
                (rest, cc (plain_of r t v q, split), stops, (p, all))
        ]
  ]
