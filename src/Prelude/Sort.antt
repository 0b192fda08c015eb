-- ===== src/Prelude/Sort.antt =====
-- slices.SortFunc, as the insertion sort that it is on short slices, over a strict total order.
use mathlib.Core.List.{Perm, Permᴰ}
use mathlib.Core.List.Permᴰ as PermD
use mathlib.Core.Logic.{∥∥₁_elim}
use someguy.Prelude.Int.{ℤ, is_negative}
use someguy.Prelude.Tests.{if◌then◌else◌}
use someguy.Prelude.Lists.{All, length}
use Prim.Native.Nat.{suc}
use mathlib.Core.Path.{◌≡◌, refl, ◌∙◌}
use mathlib.Core.Bool.{Bool, true, false}
use mathlib.Core.List.{List, [], ◌∷◌}
use native.Mathlib.Omega.{arith}

List-set {ℓ} : {A : Type ℓ} → IsSet A → IsSet (List A)
List-set s = hlevel s

module _ {ℓ} {A : Type ℓ} (cmp : A → A → ℤ) where
  abbrev pub before : A → A → Bool
  before x y = is_negative (cmp x y)

  unfoldable pub insert : A → List A → List A
  insert x [] = x ∷ []
  insert x (y ∷ ys) = if before y x then y ∷ insert x ys else x ∷ y ∷ ys

  unfoldable pub sort_func : List A → List A
  unfolding insert
  sort_func [] = []
  sort_func (x ∷ xs) = insert x (sort_func xs)

  -- No later item is before an earlier one.
  abbrev pub IsSorted : List A → Type ℓ
  IsSorted [] = Unit
  IsSorted (x ∷ xs) = All (λ y. before y x ≡ false) xs × IsSorted xs

  pub record IsOrder : Type ℓ where
    pub asymm : (x y : A) → before x y ≡ true → before y x ≡ false
    pub trans : (x y z : A) → before x y ≡ true → before y z ≡ true → before x z ≡ true
    pub antisymm : (x y : A) → before x y ≡ false → before y x ≡ false → x ≡ y

  insert-Permᴰ : (x : A) (xs : List A) → Permᴰ (insert x xs) (x ∷ xs)
  unfolding insert
  insert-Permᴰ x [] = Permᴰ.cons refl Permᴰ.nil
  insert-Permᴰ x (y ∷ ys) =
      elim (before y x) as (λ b. Permᴰ (if b then y ∷ insert x ys else x ∷ y ∷ ys) (x ∷ y ∷ ys)) [
        | true ↦ Permᴰ.trans (Permᴰ.cons refl (insert-Permᴰ x ys)) (Permᴰ.swap refl refl)
        | false ↦ PermD.refl (x ∷ y ∷ ys)
      ]

  sort_func-Permᴰ : (xs : List A) → Permᴰ (sort_func xs) xs
  unfolding sort_func
  sort_func-Permᴰ [] = Permᴰ.nil
  sort_func-Permᴰ (x ∷ xs) =
      Permᴰ.trans (insert-Permᴰ x (sort_func xs)) (Permᴰ.cons refl (sort_func-Permᴰ xs))

  pub sort_func-perm : (xs : List A) → Perm (sort_func xs) xs
  sort_func-perm xs = ∣ sort_func-Permᴰ xs ∣₁

  module _ (o : IsOrder) where
    insert_comm : (x y : A) (l : List A) → insert x (insert y l) ≡ insert y (insert x l)
    unfolding insert
    insert_comm x y [] = ground (arith, o.asymm x y, o.antisymm x y)
    insert_comm x y (z ∷ l) =
        ground (arith, o.asymm x y, o.antisymm x y, o.trans z x y, o.trans z y x, insert_comm x y l)

    sort_func-eq_of_Permᴰ : {xs ys : List A} → Permᴰ xs ys → sort_func xs ≡ sort_func ys
    unfolding sort_func
    sort_func-eq_of_Permᴰ Permᴰ.nil = refl
    sort_func-eq_of_Permᴰ (Permᴰ.cons e p) = cc (sort_func-eq_of_Permᴰ p)
    sort_func-eq_of_Permᴰ (Permᴰ.swap {a = a} {b = b} {l = l} e f) =
        cc (insert_comm a b (sort_func l))
    sort_func-eq_of_Permᴰ (Permᴰ.trans p q) = sort_func-eq_of_Permᴰ p ∙ sort_func-eq_of_Permᴰ q

    -- The result does not depend on the order of the input.
    pub sort_func-eq_of_perm : IsSet A → {xs ys : List A} → Perm xs ys → sort_func xs ≡ sort_func ys
    sort_func-eq_of_perm s {xs} {ys} p =
        ∥∥₁_elim p (List-set s (sort_func xs) (sort_func ys)) sort_func-eq_of_Permᴰ

    insert-All :
        (x z : A) (l : List A)
        → before x z ≡ false
        → All (λ y. before y z ≡ false) l
        → All (λ y. before y z ≡ false) (insert x l)
    unfolding insert
    insert-All x z [] h a = (h, tt)
    insert-All x z (y ∷ l) h a = ground (arith, insert-All x z l h)

    All-after :
        (x y : A) (l : List A)
        → before y x ≡ false
        → All (λ z. before z y ≡ false) l
        → All (λ z. before z x ≡ false) l
    All-after x y [] h a = tt
    All-after x y (z ∷ l) h a = ground (
      arith,
      All-after x y l h,
      o.antisymm x y,
      o.antisymm y z,
      o.trans x y z,
      o.asymm x z,
      o.asymm z x,
      o.trans z x y,
    )

    insert-IsSorted : (x : A) (l : List A) → IsSorted l → IsSorted (insert x l)
    unfolding insert
    insert-IsSorted x [] s = (tt, tt)
    insert-IsSorted x (y ∷ l) s =
        ground (arith, o.asymm y x, insert-All x y l, insert-IsSorted x l, All-after x y l)

    pub sort_func-IsSorted : (xs : List A) → IsSorted (sort_func xs)
    unfolding sort_func
    sort_func-IsSorted [] = tt
    sort_func-IsSorted (x ∷ xs) = insert-IsSorted x (sort_func xs) (sort_func-IsSorted xs)

    insert-before-All : (x : A) (l : List A) → All (λ y. before y x ≡ false) l → insert x l ≡ x ∷ l
    unfolding insert
    insert-before-All x [] a = refl
    insert-before-All x (y ∷ l) a = rw a.0

    -- Sorting what is sorted changes nothing.
    pub sort_func_of_IsSorted : (l : List A) → IsSorted l → sort_func l ≡ l
    unfolding sort_func
    sort_func_of_IsSorted [] s = refl
    sort_func_of_IsSorted (x ∷ l) s = rw (sort_func_of_IsSorted l s.1) (insert-before-All x l s.0)

  -- A property of every item survives sorting.
  insert-keeps-All {κ} : (P : A → Type κ) (x : A) (l : List A) → P x → All P l → All P (insert x l)
  unfolding insert
  insert-keeps-All P x [] h a = (h, tt)
  insert-keeps-All P x (y ∷ l) h a =
      elim (before y x) as (λ b. All P (if b then y ∷ insert x l else x ∷ y ∷ l)) [
        | true ↦ (a.0, insert-keeps-All P x l h a.1)
        | false ↦ (h, a)
      ]

  pub All-sort_func {κ} : (P : A → Type κ) (l : List A) → All P l → All P (sort_func l)
  unfolding sort_func
  All-sort_func P [] a = tt
  All-sort_func P (x ∷ l) a = insert-keeps-All P x (sort_func l) a.0 (All-sort_func P l a.1)

  length-insert : (x : A) (l : List A) → length (insert x l) ≡ suc (length l)
  unfolding insert
  length-insert x [] = refl
  length-insert x (y ∷ l) = ground (arith, length-insert x l)

  pub length-sort_func : (l : List A) → length (sort_func l) ≡ length l
  unfolding sort_func
  length-sort_func [] = refl
  length-sort_func (x ∷ l) = omega (arith, length-insert x (sort_func l), length-sort_func l)
