-- ===== src/Routers/Many.antt =====
-- server_routers.go: manyIter. Each child iterator is what it still has to yield; its goroutine
-- offers the first of that on the channel, and a Next receives from any of them.
use mathlib.Core.List.{Perm}
use mathlib.Core.List.Perm
use mathlib.Core.List.{append_assoc, perm_middle}
use someguy.Prelude.{
  sym, subst, ◌≡◌, refl, Bool, true, false, Option, none, some, List, [], ◌∷◌, ◌++◌, All, arith,
  if◌then◌else◌,
}
use someguy.Records.{GoError, join_errors, Result}

-- `canceled` is mi.ctx having ended, `children_closed` whether the children's Close was called.
pub record ManyIter (T : Type 0) : Type 0 where
  pub its : List (List (Result T))
  pub val : Option (Result T)
  pub done : Bool
  pub canceled : Bool
  pub children_closed : Bool

-- The errors of the children's Close, joined in their order.
unfoldable pub join_close_errors : List (Option GoError) → Option GoError → Option GoError
unfolding join_errors
join_close_errors [] err = err
join_close_errors (e ∷ es) err = join_close_errors es (join_errors err e)

same_some : {X : Type 0} (a b : X) → some a ≡ some b → a ≡ b
same_some a b h = ground arith

module _ {T : Type 0} where
  unfoldable pub new_many_iter : List (List (Result T)) → ManyIter T
  new_many_iter its = record {
    its = its;
    val = none;
    done = false;
    canceled = false;
    children_closed = false;
  }

  -- A call of Next, with what it returns and the iterator after it.
  pub data Next : ManyIter T → Bool → ManyIter T → Type 0 where
    finished : (mi : ManyIter T) → mi.done ≡ true → Next mi false mi
    received :
        (mi : ManyIter T) (before after : List (List (Result T))) (v : Result T)
        (rest : List (Result T))
        → mi.done ≡ false
        → mi.its ≡ before ++ ((v ∷ rest) ∷ after)
        → Next mi true (record mi { its = before ++ (rest ∷ after); val = some v })
    drained :
        (mi : ManyIter T)
        → mi.done ≡ false
        → All (λ l. l ≡ []) mi.its
        → Next mi false (record mi { done = true })
    interrupted :
        (mi : ManyIter T)
        → mi.done ≡ false
        → mi.canceled ≡ true
        → Next mi false (record mi { done = true })

  -- Close: what the children still have to yield is discarded.
  unfoldable pub close : List (Option GoError) → ManyIter T → Option GoError × ManyIter T
  unfolding join_close_errors
  close close_errors mi = if mi.done then (none, mi) else (
    join_close_errors close_errors none,
    record mi { its = []; done = true; canceled = true; children_closed = true },
  )

  -- A caller that calls Next until it returns false, with the values that it read.
  pub data Run : ManyIter T → List (Result T) → ManyIter T → Type 0 where
    stops : (mi mi' : ManyIter T) → Next mi false mi' → Run mi [] mi'
    reads :
        (mi mi' mi'' : ManyIter T) (v : Result T) (vs : List (Result T))
        → Next mi true mi'
        → mi'.val ≡ some v
        → Run mi' vs mi''
        → Run mi (v ∷ vs) mi''

  abbrev pub all_of : List (List (Result T)) → List (Result T)
  all_of [] = []
  all_of (l ∷ ls) = l ++ all_of ls

  all_of-append :
      (before : List (List (Result T))) (l : List (Result T)) (after : List (List (Result T)))
      → all_of (before ++ (l ∷ after)) ≡ all_of before ++ (l ++ all_of after)
  all_of-append [] l after = refl
  all_of-append (b ∷ before) l after =
      rw (all_of-append before l after) (sym (append_assoc b (all_of before) (l ++ all_of after)))

  all_of-empty : (ls : List (List (Result T))) → All (λ l. l ≡ []) ls → all_of ls ≡ []
  all_of-empty [] h = refl
  all_of-empty (l ∷ ls) h = rw (h.0, all_of-empty ls h.1)

  -- Reading a manyIter to its end, in whatever order its children deliver, gives every result of every
  -- child once and nothing else, if its context does not end and it was not read to its end before.
  pub Run-perm :
      {mi mi' : ManyIter T} {vs : List (Result T)}
      → Run mi vs mi'
      → mi.done ≡ false
      → mi.canceled ≡ false
      → Perm vs (all_of mi.its)
  Run-perm (stops mi mi' (finished _ h)) d c = absurd (ground arith)
  Run-perm (stops mi mi' (drained _ h e)) d c = rw (all_of-empty mi.its e) Perm.nil
  Run-perm (stops mi mi' (interrupted _ h k)) d c = absurd (ground arith)
  Run-perm (reads mi mi' mi'' v vs (received _ before after w rest h e) r run) d c =
      let ih = Run-perm run d c in
      let ih' : Perm vs (all_of before ++ (rest ++ all_of after)) =
        subst (Perm vs) (all_of-append before rest after) ih in
      rw (e, all_of-append before (w ∷ rest) after, same_some w v r)
        (Perm.trans (Perm.cons v ih')
          (Perm.symm (perm_middle (all_of before) (rest ++ all_of after))))

  -- Close of a manyIter whose Next has returned false does nothing: if its children were not
  -- closed before, they stay open.
  pub close_after_end :
      {mi mi' : ManyIter T} (errors : List (Option GoError))
      → Next mi false mi'
      → mi.children_closed ≡ false
      → (close errors mi' ≡ (none, mi')) × (mi'.children_closed ≡ false)
  unfolding close
  close_after_end errors (finished _ h) c = (rw h, c)
  close_after_end errors (drained _ h e) c = (refl, c)
  close_after_end errors (interrupted _ h k) c = (refl, c)
