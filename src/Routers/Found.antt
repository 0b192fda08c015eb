-- ===== src/Routers/Found.antt =====
-- What parallelRouter makes of routers of which some fail.
use mathlib.Core.List.{
  Mem, Mem-prop, mem-cons, mem-cons_self, mem-append_left, mem-append_right, not-mem-nil,
}
use mathlib.Core.Logic.Or
use mathlib.Core.HLevel.{⊥_prop}
use someguy.Prelude.{
  ◌≡◌, ◌↔◌, refl, sym, ap, ◌∙◌, inl, inr, Option, none, some, List, [], ◌∷◌, ◌++◌, All, arith,
}
use someguy.Records.{GoError, join_errors}
use someguy.Routers.Compose.{
  Fallible, Fallible-cases, ok, fails, Merged, no_results, single, many, gather, merge, find,
  join_all, put_ipns,
}

-- An iterator is among those whose results are served.
abbrev pub Offers : {I : Type 0} → Fallible (Merged I) → I → Type 0
Offers (ok no_results) it = ⊥
Offers (ok (single i)) it = Mem it (i ∷ [])
Offers (ok (many its)) it = Mem it its
Offers (fails e) it = ⊥

pub join_errors-none : (d e : Option GoError) → (join_errors d e ≡ none) ↔ ((d ≡ none) × (e ≡ none))
unfolding join_errors
join_errors-none none e = (λ h. (refl, h), λ h. h.1)
join_errors-none (some d) none = (λ h. (h, refl), λ h. h.0)
join_errors-none (some d) (some e) = (λ h. absurd (ground arith), λ h. absurd (ground (arith, h.0)))

same_ok : {T : Type 0} (a b : T) → ok a ≡ ok b → a ≡ b
same_ok a b h = ground arith

not_both : {T : Type 0} (a : T) (e : GoError) → ok a ≡ fails e → ⊥
not_both a e h = ground arith

module _ {R I : Type 0} (call : R → Fallible I) where
  gather_keeps :
      (rs : List R) (its : List I) (err : Option GoError) (it : I)
      → Mem it its
      → Mem it (gather call rs its err).0
  unfolding gather
  gather_keeps [] its err it h = h
  gather_keeps (r ∷ rs) its err it h = elim (Fallible-cases (call r)) [
    | inl (i, e) ↦ rw (e, gather) (gather_keeps rs (its ++ (i ∷ [])) err it (mem-append_left _ h))
    | inr (e, q) ↦ rw (q, gather) (gather_keeps rs its (join_errors err (some e)) it h)
  ]

  gather_adds :
      (rs : List R) (its : List I) (err : Option GoError) (r : R) (it : I)
      → Mem r rs
      → call r ≡ ok it
      → Mem it (gather call rs its err).0
  unfolding gather
  gather_adds [] its err r it h k = absurd (not-mem-nil h)
  gather_adds (q ∷ rs) its err r it h k =
      Or.elim Mem-prop (mem-cons.0 h)
        (λ e.
          rw (ap call (sym e) ∙ k, gather)
            (gather_keeps rs (its ++ (it ∷ [])) err it (mem-append_right _ mem-cons_self)))
        (λ m. elim (Fallible-cases (call q)) [
          | inl (i, e) ↦ rw (e, gather) (gather_adds rs (its ++ (i ∷ [])) err r it m k)
          | inr (e, p) ↦ rw (p, gather) (gather_adds rs its (join_errors err (some e)) r it m k)
        ])

  merge-Offers : (p : List I × Option GoError) (it : I) → Mem it p.0 → Offers (merge call p) it
  unfolding merge
  merge-Offers ([], err) it h = absurd (not-mem-nil h)
  merge-Offers (i ∷ its, err) it h = h

  -- A router that answers is heard: its iterator is served, whichever other routers fail.
  pub find-Offers :
      (rs : List R) (r : R) (it : I) → Mem r rs → call r ≡ ok it → Offers (find call rs) it
  unfolding find
  find-Offers [] r it h k = absurd (not-mem-nil h)
  find-Offers (q ∷ []) r it h k = elim (Fallible-cases (call q)) [
    | inl (i, e) ↦
        rw (e, find)
          (Or.elim Mem-prop (mem-cons.0 h)
            (λ p. rw (same_ok i it (sym e ∙ ap call (sym p) ∙ k)) mem-cons_self)
            (λ m. absurd (not-mem-nil m)))
    | inr (e, q') ↦
        rw (q', find)
          (Or.elim ⊥_prop (mem-cons.0 h) (λ p. absurd (not_both it e (sym k ∙ ap call p ∙ q')))
            (λ m. absurd (not-mem-nil m)))
  ]
  find-Offers (q ∷ s ∷ rs) r it h k =
      merge-Offers (gather call (q ∷ s ∷ rs) [] none) it (gather_adds (q ∷ s ∷ rs) [] none r it h k)

module _ {R : Type 0} (call : R → Option GoError) where
  join_all-none :
      (rs : List R) (errs : Option GoError)
      → (join_all call rs errs ≡ none) ↔ ((errs ≡ none) × All (λ r. call r ≡ none) rs)
  unfolding join_all join_errors
  join_all-none [] errs = (λ h. (h, tt), λ h. h.0)
  join_all-none (r ∷ rs) errs =
      let k = join_all-none rs (join_errors errs (call r)) in
      (
        λ h. let p = k.0 h in let d = (join_errors-none errs (call r)).0 p.0 in (d.0, (d.1, p.1)),
        λ h. k.1 ((join_errors-none errs (call r)).1 (h.0, h.1.0), h.1.1),
      )

  -- PutIPNS succeeds just when every router accepts the record.
  pub put_ipns-none : (rs : List R) → (put_ipns call rs ≡ none) ↔ All (λ r. call r ≡ none) rs
  unfolding put_ipns
  put_ipns-none [] = (λ h. tt, λ h. refl)
  put_ipns-none (r ∷ []) = (λ h. (h, tt), λ h. h.0)
  put_ipns-none (r ∷ s ∷ rs) =
      let k = join_all-none (r ∷ s ∷ rs) none in (λ h. (k.0 h).1, λ h. k.1 (refl, h))
