-- ===== src/Prelude/Keep.antt =====
-- What the filtering loop keeps, up to the order of the items.
use mathlib.Core.List.{List, [], ◌∷◌, ◌++◌, Perm, Permᴰ}
use mathlib.Core.List.{Mem, Mem-prop, mem-cons, mem-cons_self, not-mem-nil}
use mathlib.Core.Logic.{◌↔◌, inl, inr}
use mathlib.Core.Logic.Or
use mathlib.Core.List.Permᴰ as PermD
use mathlib.Core.Logic.{∥∥₁_map}
use mathlib.Core.Path.{◌≡◌, refl}
use mathlib.Core.Bool.{Bool, true, false, not}
use native.Mathlib.Omega.{arith}
use someguy.Prelude.Tests.{Bool-cases, if◌then◌else◌}
use someguy.Prelude.Lists.{keep, All}

pub Bool_path_prop : {a b : Bool} → IsProp (a ≡ b)
Bool_path_prop {a} {b} = hlevel_set a b
  where
    hlevel_set : IsSet Bool
    hlevel_set = hlevel

module _ {ℓ} {A : Type ℓ} (p : A → Bool) where
  keep-cons-Permᴰ :
      (a b : A) (xs ys : List A)
      → a ≡ b
      → Permᴰ (keep p xs) (keep p ys)
      → Permᴰ (keep p (a ∷ xs)) (keep p (b ∷ ys))
  keep-cons-Permᴰ a b xs ys e h =
      rw e
        (elim (p b)
          as (λ t.
            Permᴰ (if t then b ∷ keep p xs else keep p xs)
              (if t then b ∷ keep p ys else keep p ys)) [ true ↦ Permᴰ.cons refl h | false ↦ h ])

  swap-Permᴰ :
      (s t : Bool) (a b : A) (r : List A)
      → Permᴰ
          (if s then a ∷ (if t then b ∷ r else r) else (if t then b ∷ r else r))
          (if t then b ∷ (if s then a ∷ r else r) else (if s then a ∷ r else r))
  swap-Permᴰ true true a b r = Permᴰ.swap refl refl
  swap-Permᴰ true false a b r = PermD.refl _
  swap-Permᴰ false true a b r = PermD.refl _
  swap-Permᴰ false false a b r = PermD.refl _

  keep-swap-Permᴰ : (a b : A) (l : List A) → Permᴰ (keep p (a ∷ b ∷ l)) (keep p (b ∷ a ∷ l))
  keep-swap-Permᴰ a b l = swap-Permᴰ (p a) (p b) a b (keep p l)

  keep-Permᴰ : {xs ys : List A} → Permᴰ xs ys → Permᴰ (keep p xs) (keep p ys)
  keep-Permᴰ Permᴰ.nil = Permᴰ.nil
  keep-Permᴰ (Permᴰ.cons {a = a} {b = b} {l₁ = xs} {l₂ = ys} e h) =
      keep-cons-Permᴰ a b xs ys e (keep-Permᴰ h)
  keep-Permᴰ (Permᴰ.swap {a = a} {b = b} {l = l} e f) = rw (← e, ← f) (keep-swap-Permᴰ a b l)
  keep-Permᴰ (Permᴰ.trans h k) = Permᴰ.trans (keep-Permᴰ h) (keep-Permᴰ k)

  pub perm-keep : {xs ys : List A} → Perm xs ys → Perm (keep p xs) (keep p ys)
  perm-keep h = ∥∥₁_map h keep-Permᴰ

  split-cons-Permᴰ :
      (x : A) (xs : List A)
      → Permᴰ (keep (λ y. not (p y)) xs ++ keep p xs) xs
      → Permᴰ (keep (λ y. not (p y)) (x ∷ xs) ++ keep p (x ∷ xs)) (x ∷ xs)
  split-cons-Permᴰ x xs h =
      elim (p x)
        as (λ t.
          Permᴰ
            ((if not t then x ∷ keep (λ y. not (p y)) xs else keep (λ y. not (p y)) xs)
              ++ (if t then x ∷ keep p xs else keep p xs))
            (x ∷ xs)) [
              | true ↦ Permᴰ.trans (PermD.middle x _ _) (Permᴰ.cons refl h)
              | false ↦ Permᴰ.cons refl h
            ]

  keep_not-Permᴰ : (xs : List A) → Permᴰ (keep (λ y. not (p y)) xs ++ keep p xs) xs
  keep_not-Permᴰ [] = Permᴰ.nil
  keep_not-Permᴰ (x ∷ xs) = split-cons-Permᴰ x xs (keep_not-Permᴰ xs)

  pub perm_keep_not : (xs : List A) → Perm (keep (λ y. not (p y)) xs ++ keep p xs) xs
  perm_keep_not xs = ∣ keep_not-Permᴰ xs ∣₁

  pub keep_of_All : (xs : List A) → All (λ x. p x ≡ true) xs → keep p xs ≡ xs
  keep_of_All [] h = refl
  keep_of_All (x ∷ xs) h = ground (arith, keep_of_All xs)

  mem_of_keep : (a : A) (xs : List A) → Mem a (keep p xs) → Mem a xs
  mem_of_keep a [] h = h
  mem_of_keep a (x ∷ xs) h = elim (Bool-cases (p x)) [
    | inl e ↦
        Or.elim Mem-prop (mem-cons.0 (rw e at h)) (λ q. mem-cons.1 (Or.inl q))
          (λ k. mem-cons.1 (Or.inr (mem_of_keep a xs k)))
    | inr e ↦ mem-cons.1 (Or.inr (mem_of_keep a xs (rw e at h)))
  ]

  pub mem-keep_test : (a : A) (xs : List A) → Mem a (keep p xs) → p a ≡ true
  mem-keep_test a [] h = absurd (not-mem-nil h)
  mem-keep_test a (x ∷ xs) h = elim (Bool-cases (p x)) [
    | inl e ↦
        Or.elim Bool_path_prop (mem-cons.0 (rw e at h)) (λ q. rw q e) (λ k. mem-keep_test a xs k)
    | inr e ↦ mem-keep_test a xs (rw e at h)
  ]

  keep_of_mem : (a : A) (xs : List A) → Mem a xs → p a ≡ true → Mem a (keep p xs)
  keep_of_mem a [] h t = h
  keep_of_mem a (x ∷ xs) h t =
      Or.elim Mem-prop (mem-cons.0 h) (λ q. rw (← q, t) mem-cons_self)
        (λ k. elim (Bool-cases (p x)) [
          | inl e ↦ rw e (mem-cons.1 (Or.inr (keep_of_mem a xs k t)))
          | inr e ↦ rw e (keep_of_mem a xs k t)
        ])

  pub mem-keep : (a : A) (xs : List A) → Mem a (keep p xs) ↔ (Mem a xs × (p a ≡ true))
  mem-keep a xs = (λ h. (mem_of_keep a xs h, mem-keep_test a xs h), λ h. keep_of_mem a xs h.0 h.1)
