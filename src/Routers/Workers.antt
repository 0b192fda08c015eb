-- ===== src/Routers/Workers.antt =====
-- The goroutines of manyIter (server_routers.go: newManyIter and Close): one for each child iterator,
-- and one that waits for them and closes the channel. The goroutine of a child calls the child's
-- Next, and then offers the value on the channel, which has no buffer, until it is received or
-- the context of the iterator has ended. The results that a child yields are a list: a call of
-- its Next returns.
pub mod Ends
use mathlib.Core.List.{map-append}
use someguy.Prelude.{
  ℕ, zero, suc, ◌-◌, ◌+◌, ◌*◌, ◌<◌, ◌≤◌, ◌≡◌, ◌≢◌, refl, sym, ◌∙◌, subst, ap, ◌⊎◌, inl, inr, Bool,
  true, false, Option, none, some, List, [], ◌∷◌, ◌++◌, length, map, All, arith,
}
use someguy.Records.{Result}
use someguy.Routers.Many.{ManyIter, Next, received}

pub data Worker (T : Type 0) : Type 0 where
  runs : List (Result T) → Worker T
  offers : Result T → List (Result T) → Worker T
  finished : Worker T

-- `wg` is the count of the wait group, `closed` whether the channel is. `val` is what was received last.
pub record Pool (T : Type 0) : Type 0 where
  pub workers : List (Worker T)
  pub wg : ℕ
  pub closed : Bool
  pub val : Option (Result T)
  pub canceled : Bool

module _ {T : Type 0} where
  unfoldable pub new_pool : List (List (Result T)) → Pool T
  new_pool its = record {
    workers = map runs its;
    wg = length its;
    closed = false;
    val = none;
    canceled = false;
  }

  -- A goroutine that ends calls wg.Done. wg.Wait returns when the count is 0, and the channel is closed.
  pub data Step : Pool T → Pool T → Type 0 where
    produces :
        (p : Pool T) (before after : List (Worker T)) (v : Result T) (rest : List (Result T))
        → p.workers ≡ before ++ (runs (v ∷ rest) ∷ after)
        → Step p (record p { workers = before ++ (offers v rest ∷ after) })
    exhausts :
        (p : Pool T) (before after : List (Worker T))
        → p.workers ≡ before ++ (runs [] ∷ after)
        → Step p (record p { workers = before ++ (finished ∷ after); wg = p.wg - 1 })
    delivers :
        (p : Pool T) (before after : List (Worker T)) (v : Result T) (rest : List (Result T))
        → p.workers ≡ before ++ (offers v rest ∷ after)
        → Step p (record p { workers = before ++ (runs rest ∷ after); val = some v })
    gives_up :
        (p : Pool T) (before after : List (Worker T)) (v : Result T) (rest : List (Result T))
        → p.canceled ≡ true
        → p.workers ≡ before ++ (offers v rest ∷ after)
        → Step p (record p { workers = before ++ (finished ∷ after); wg = p.wg - 1 })
    closes : (p : Pool T) → p.wg ≡ 0 → p.closed ≡ false → Step p (record p { closed = true })

  -- What a worker's child still has to yield.
  abbrev left : Worker T → List (Result T)
  left (runs rest) = rest
  left (offers v rest) = v ∷ rest
  left finished = []

  -- The manyIter whose children still have to yield what the workers have.
  abbrev pub iterator : Pool T → ManyIter T
  iterator p = record {
    its = map left p.workers;
    val = p.val;
    done = false;
    canceled = p.canceled;
    children_closed = false;
  }

  map-left :
      (before after : List (Worker T)) (w : Worker T)
      → map left (before ++ (w ∷ after)) ≡ map left before ++ (left w ∷ map left after)
  map-left before after w = map-append left before (w ∷ after)

  same_left :
      (p : Pool T) (before after : List (Worker T)) (w w' : Worker T)
      → p.workers ≡ before ++ (w ∷ after)
      → left w ≡ left w'
      → iterator (record p { workers = before ++ (w' ∷ after) }) ≡ iterator p
  same_left p before after w w' e q =
      ap (λ its. record (iterator p) { its = its })
        (map-left before after w'
          ∙ ap (λ l. map left before ++ (l ∷ map left after)) (sym q)
          ∙ sym (map-left before after w)
          ∙ ap (map left) (sym e))

  -- While the context has not ended, a step of the goroutines leaves the iterator as it is, or it is the
  -- step of a Next that receives a value of one of its children.
  pub Step-refines :
      (p p' : Pool T)
      → Step p p'
      → p.canceled ≡ false
      → (iterator p' ≡ iterator p) ⊎ Next (iterator p) true (iterator p')
  Step-refines p p' (produces _ before after v rest e) c =
      inl (same_left p before after (runs (v ∷ rest)) (offers v rest) e refl)
  Step-refines p p' (exhausts _ before after e) c =
      inl (same_left p before after (runs []) finished e refl)
  Step-refines p p' (delivers _ before after v rest e) c = inr (
      subst (λ its. Next (iterator p) true (record (iterator p) { its = its; val = some v }))
        (sym (map-left before after (runs rest)))
        (received (iterator p) (map left before) (map left after) v rest refl
          (ap (map left) e ∙ map-left before after (offers v rest))))
  Step-refines p p' (gives_up _ before after v rest k e) c = absurd (ground (arith, k, c))
  Step-refines p p' (closes _ e k) c = inl refl
