-- ===== src/Routers/Workers/Ends.antt =====
-- The goroutines of a manyIter (server_routers.go: newManyIter) from their start to the closing of its
-- channel.
use someguy.Prelude.{
  ℕ, zero, suc, ◌+◌, ◌*◌, ◌<◌, ◌≤◌, ◌≡◌, refl, ◌∙◌, ap, ◌⊎◌, inl, inr, Bool, true, false, List, [],
  ◌∷◌, ◌++◌, length, length-append, map, arith, if◌then◌else◌,
}
use someguy.Records.{Result}
use someguy.Routers.Many.{all_of}
use someguy.Routers.Workers.{
  Worker, runs, offers, finished, Pool, new_pool, Step, produces, exhausts, delivers, gives_up,
  closes,
}

module _ {T : Type 0} where
  -- The steps that a worker can still make.
  abbrev steps_left : Worker T → ℕ
  steps_left (runs rest) = 2 * length rest + 1
  steps_left (offers v rest) = 2 * length rest + 2
  steps_left finished = 0

  abbrev all_steps : List (Worker T) → ℕ
  all_steps [] = 0
  all_steps (w ∷ ws) = steps_left w + all_steps ws

  -- The steps that the goroutines can still make, with the closing of the channel.
  abbrev measure : Pool T → ℕ
  measure p = all_steps p.workers + (if p.closed then 0 else 1)

  all_steps-middle :
      (before after : List (Worker T)) (w : Worker T)
      → all_steps (before ++ (w ∷ after)) ≡ all_steps before + steps_left w + all_steps after
  all_steps-middle [] after w = omega arith
  all_steps-middle (b ∷ before) after w = omega (arith, all_steps-middle before after w)

  replaces :
      (p : Pool T) (before after : List (Worker T)) (w w' : Worker T)
      → p.workers ≡ before ++ (w ∷ after)
      → steps_left w' < steps_left w
      → all_steps (before ++ (w' ∷ after)) < all_steps p.workers
  replaces p before after w w' e h =
      omega (
        arith,
        h,
        ap all_steps e,
        all_steps-middle before after w,
        all_steps-middle before after w',
      )

  Step-decreases : (p p' : Pool T) → Step p p' → measure p' < measure p
  Step-decreases p p' (produces _ before after v rest e) =
      omega (arith, replaces p before after (runs (v ∷ rest)) (offers v rest) e (omega arith))
  Step-decreases p p' (exhausts _ before after e) =
      omega (arith, replaces p before after (runs []) finished e (omega arith))
  Step-decreases p p' (delivers _ before after v rest e) =
      omega (arith, replaces p before after (offers v rest) (runs rest) e (omega arith))
  Step-decreases p p' (gives_up _ before after v rest k e) =
      omega (arith, replaces p before after (offers v rest) finished e (omega arith))
  Step-decreases p p' (closes _ e k) = rw k (omega arith)

  -- The workers that have not finished.
  abbrev active : Worker T → ℕ
  active (runs rest) = 1
  active (offers v rest) = 1
  active finished = 0

  abbrev all_active : List (Worker T) → ℕ
  all_active [] = 0
  all_active (w ∷ ws) = active w + all_active ws

  all_active-middle :
      (before after : List (Worker T)) (w : Worker T)
      → all_active (before ++ (w ∷ after)) ≡ all_active before + active w + all_active after
  all_active-middle [] after w = omega arith
  all_active-middle (b ∷ before) after w = omega (arith, all_active-middle before after w)

  abbrev IsCounted : Pool T → Type 0
  IsCounted p = p.wg ≡ all_active p.workers

  recounts :
      (p : Pool T) (before after : List (Worker T)) (w w' : Worker T)
      → p.workers ≡ before ++ (w ∷ after)
      → IsCounted p
      → p.wg + active w' ≡ all_active (before ++ (w' ∷ after)) + active w
  recounts p before after w w' e h = omega (
    arith,
    h,
    ap all_active e,
    all_active-middle before after w,
    all_active-middle before after w',
  )

  Step-IsCounted : (p p' : Pool T) → Step p p' → IsCounted p → IsCounted p'
  Step-IsCounted p p' (produces _ before after v rest e) h =
      omega (arith, recounts p before after (runs (v ∷ rest)) (offers v rest) e h)
  Step-IsCounted p p' (exhausts _ before after e) h =
      omega (arith, recounts p before after (runs []) finished e h)
  Step-IsCounted p p' (delivers _ before after v rest e) h =
      omega (arith, recounts p before after (offers v rest) (runs rest) e h)
  Step-IsCounted p p' (gives_up _ before after v rest k e) h =
      omega (arith, recounts p before after (offers v rest) finished e h)
  Step-IsCounted p p' (closes _ e k) h = h

  Step-canceled : (p p' : Pool T) → Step p p' → p'.canceled ≡ p.canceled
  Step-canceled p p' (produces _ before after v rest e) = refl
  Step-canceled p p' (exhausts _ before after e) = refl
  Step-canceled p p' (delivers _ before after v rest e) = refl
  Step-canceled p p' (gives_up _ before after v rest k e) = refl
  Step-canceled p p' (closes _ e k) = refl

  -- What the goroutines of a manyIter have come to after a number of steps; its context may end between
  -- any two of them.
  pub data Reached (its : List (List (Result T))) : ℕ → Pool T → Type 0 where
    at_start : Reached its 0 (new_pool its)
    by_step : {n : ℕ} {p q : Pool T} → Reached its n p → Step p q → Reached its (suc n) q
    by_cancel :
        {n : ℕ} {p : Pool T} → Reached its n p → Reached its n (record p { canceled = true })

  all_steps-new :
      (its : List (List (Result T)))
      → all_steps (map runs its) ≡ 2 * length (all_of its) + length its
  all_steps-new [] = omega arith
  all_steps-new (l ∷ its) = omega (arith, all_steps-new its, length-append l (all_of its))

  Reached-bounded :
      (its : List (List (Result T))) (n : ℕ) (p : Pool T)
      → Reached its n p
      → n + measure p ≤ 2 * length (all_of its) + length its + 1
  unfolding new_pool
  Reached-bounded its _ p at_start = omega (arith, all_steps-new its)
  Reached-bounded its _ p (by_step {n = n} {p = q} r s) =
      omega (arith, Step-decreases q p s, Reached-bounded its n q r)
  Reached-bounded its n p (by_cancel {p = q} r) = Reached-bounded its n q r

  all_active-new : (its : List (List (Result T))) → length its ≡ all_active (map runs its)
  all_active-new [] = refl
  all_active-new (l ∷ its) = omega (arith, all_active-new its)

  Reached-IsCounted :
      (its : List (List (Result T))) (n : ℕ) (p : Pool T) → Reached its n p → IsCounted p
  unfolding new_pool
  Reached-IsCounted its _ p at_start = all_active-new its
  Reached-IsCounted its _ p (by_step {n = n} {p = q} r s) =
      Step-IsCounted q p s (Reached-IsCounted its n q r)
  Reached-IsCounted its n p (by_cancel {p = q} r) = Reached-IsCounted its n q r

  -- The steps that no Next and no Close has a part in.
  abbrev IsAlone : (p p' : Pool T) → Step p p' → Type 0
  IsAlone p p' (produces _ before after v rest e) = Unit
  IsAlone p p' (exhausts _ before after e) = Unit
  IsAlone p p' (delivers _ before after v rest e) = ⊥
  IsAlone p p' (gives_up _ before after v rest k e) = Unit
  IsAlone p p' (closes _ e k) = Unit

  abbrev AloneStep : Pool T → Type 0
  AloneStep p = (q : Pool T) × (s : Step p q) × IsAlone p q s

  -- The channel is closed, or some goroutine can go on by itself, and whatever step is made the channel
  -- comes to be closed.
  pub data Closes : Pool T → Type 0 where
    is_closed : {p : Pool T} → p.closed ≡ true → Closes p
    goes_on : {p : Pool T} → AloneStep p → ((q : Pool T) → Step p q → Closes q) → Closes p

  -- A worker that has not finished, with those around it.
  record Busy (ws : List (Worker T)) : Type 0 where
    before : List (Worker T)
    worker : Worker T
    after : List (Worker T)
    among : ws ≡ before ++ (worker ∷ after)
    unfinished : active worker ≡ 1

  split_workers : (ws : List (Worker T)) → (all_active ws ≡ 0) ⊎ Busy ws
  split_workers [] = inl refl
  split_workers (runs rest ∷ ws) =
      inr (record { before = []; worker = runs rest; after = ws; among = refl; unfinished = refl })
  split_workers (offers v rest ∷ ws) =
      inr (record {
        before = [];
        worker = offers v rest;
        after = ws;
        among = refl;
        unfinished = refl;
      })
  split_workers (finished ∷ ws) = elim (split_workers ws) [
    | inl all ↦ inl (omega (arith, all))
    | inr a ↦ inr (record {
      before = finished ∷ a.before;
      worker = a.worker;
      after = a.after;
      among = ap (λ l. finished ∷ l) a.among;
      unfinished = a.unfinished;
    })
  ]

  works :
      (p : Pool T) (before after : List (Worker T)) (w : Worker T)
      → p.workers ≡ before ++ (w ∷ after)
      → active w ≡ 1
      → p.canceled ≡ true
      → AloneStep p
  works p before after (runs []) e n c = (_, exhausts p before after e, tt)
  works p before after (runs (v ∷ rest)) e n c = (_, produces p before after v rest e, tt)
  works p before after (offers v rest) e n c = (_, gives_up p before after v rest c e, tt)
  works p before after finished e n c = absurd (omega (arith, n))

  alone :
      (b : Bool) (p : Pool T)
      → p.closed ≡ b
      → p.canceled ≡ true
      → IsCounted p
      → (p.closed ≡ true) ⊎ AloneStep p
  alone true p k c h = inl k
  alone false p k c h = elim (split_workers p.workers) [
    | inl none_active ↦ inr (_, closes p (h ∙ none_active) k, tt)
    | inr a ↦ inr (works p a.before a.after a.worker a.among a.unfinished c)
  ]

  come_to_close :
      (fuel : ℕ) (p : Pool T) → measure p < fuel → p.canceled ≡ true → IsCounted p → Closes p
  come_to_close zero p f c h = absurd (omega (arith, f))
  come_to_close (suc fuel) p f c h = elim (alone p.closed p refl c h) [
    | inl k ↦ is_closed k
    | inr a ↦ goes_on a (λ q s.
        come_to_close fuel q (omega (arith, f, Step-decreases p q s)) (Step-canceled p q s ∙ c)
          (Step-IsCounted p q s h))
  ]

  -- When the context of a manyIter has ended, its goroutines have made, since they were started, no more
  -- than two steps for each result of a child, one for each child and the closing of the channel,
  -- received values included, if every call of a child's Next returns (a child is a list of
  -- results). From then on some goroutine can go on without a Next or a Close that receives,
  -- until the channel is closed, which comes to be whatever steps are made.
  pub canceled_finishes :
      (its : List (List (Result T))) (n : ℕ) (p : Pool T)
      → Reached its n p
      → p.canceled ≡ true
      → (n ≤ 2 * length (all_of its) + length its + 1) × Closes p
  canceled_finishes its n p r c = (
    omega (arith, Reached-bounded its n p r),
    come_to_close (suc (measure p)) p (omega arith) c (Reached-IsCounted its n p r),
  )
