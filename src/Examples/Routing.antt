-- ===== src/Examples/Routing.antt =====
-- Routers that answer at different times, some with errors.
use someguy.Routers.Workers.Ends.{Reached, at_start, by_step, by_cancel, Closes, canceled_finishes}
use someguy.Routers.Workers.{
  Pool, new_pool, runs, offers, produces, delivers, iterator, Step-refines, finished, gives_up,
}
use mathlib.Core.List.{Perm}
use someguy.Prelude.{
  ℕ, zero, suc, ◌≡◌, refl, Bool, true, false, Option, none, some, List, [], ◌∷◌, ◌⊎◌, ◌≤◌, ◌+◌, ◌*◌,
  length,
}
use someguy.Prelude.Bytes.{Bytes}
use someguy.Records.{GoError, not_found, canceled, schema_peer, PeerRecord, Result}
use someguy.Routers.Compose.{Fallible, ok, fails}
use someguy.Routers.Ipns.{
  IpnsRecords, IpnsAnswer, Round, arrives, validity_eol, get_ipns, is_expired_ipns_record,
}
use someguy.Routers.Race.{first_live, get_ipns_first}
use someguy.Routers.Libp2p.{PeerChanIter}
use someguy.Routers.Many.{
  ManyIter, Next, received, drained, Run, stops, reads, all_of, close, Run-perm, close_after_end,
}
use someguy.Samples.{bytes_multiaddr}

-- Records that end at a time, which they are.
abbrev ipns : IpnsRecords ℕ
ipns = record { validity_type = λ r. some validity_eol; validity = λ r. some r }

-- An expired record, no record, and a live one.
abbrev answer : ℕ → IpnsAnswer ℕ
answer zero = record { val = some 5; err = none }
answer (suc zero) = record { val = none; err = some not_found }
answer (suc (suc n)) = record { val = some 20; err = none }

abbrev rounds : List (Round ℕ)
rounds = arrives 10 (answer 0) none ∷ arrives 11 (answer 1) none ∷ arrives 12 (answer 2) none ∷ []

get_ipns_first_example : get_ipns ipns answer (0 ∷ 1 ∷ 2 ∷ []) 9 rounds ≡ ok (some 20)
unfolding first_live is_expired_ipns_record
get_ipns_first_example =
    get_ipns_first ipns answer 0 1 (2 ∷ []) 9 rounds (arrives 12 (answer 2) none)
      (refl, (refl, (refl, tt))) refl

-- The first router answers, the others fail.
abbrev find_call : ℕ → Fallible ℕ
find_call zero = ok zero
find_call (suc n) = fails not_found

abbrev put_call : ℕ → Option GoError
put_call zero = none
put_call (suc n) = some canceled

abbrev found_peer : PeerRecord Bytes
found_peer = record {
  schema = schema_peer;
  id = some (165 ∷ []);
  addrs = (4 ∷ 10 ∷ []) ∷ (4 ∷ 1 ∷ []) ∷ [];
  protocols = [];
}

abbrev chan_iter : PeerChanIter Bytes
chan_iter = record {
  ch = record { id = 165 ∷ []; addrs = (4 ∷ []) ∷ [] } ∷ [];
  next = none;
  canceled = false;
}

abbrev result : ℕ → Result ℕ
result n = record { val = some n; err = none }

abbrev many_at : List (List (Result ℕ)) → Option (Result ℕ) → Bool → ManyIter ℕ
many_at its val done = record {
  its = its;
  val = val;
  done = done;
  canceled = false;
  children_closed = false;
}

abbrev start : ManyIter ℕ
start = many_at ((result 1 ∷ []) ∷ (result 2 ∷ []) ∷ []) none false

abbrev one_left : ManyIter ℕ
one_left = many_at ((result 1 ∷ []) ∷ [] ∷ []) (some (result 2)) false

abbrev none_left : ManyIter ℕ
none_left = many_at ([] ∷ [] ∷ []) (some (result 1)) false

abbrev at_end : ManyIter ℕ
at_end = many_at ([] ∷ [] ∷ []) (some (result 1)) true

last_next : Next none_left false at_end
last_next = drained none_left refl (refl, (refl, tt))

-- The second child is the first to deliver.
reading : Run start (result 2 ∷ result 1 ∷ []) at_end
reading =
    reads start one_left at_end (result 2) (result 1 ∷ [])
      (received start ((result 1 ∷ []) ∷ []) [] (result 2) [] refl refl) refl
      (reads one_left none_left at_end (result 1) []
        (received one_left [] ([] ∷ []) (result 1) [] refl refl) refl
        (stops none_left at_end last_next))

Run-perm_example : Perm (result 2 ∷ result 1 ∷ []) (all_of start.its)
Run-perm_example = Run-perm reading refl refl

close_after_end_example : (close [] at_end ≡ (none, at_end)) × (at_end.children_closed ≡ false)
close_after_end_example = close_after_end [] last_next refl

-- Two children: one has yielded its last value, the other has one left.
abbrev pool : Pool ℕ
pool = record {
  workers = offers (result 1) [] ∷ runs (result 2 ∷ []) ∷ [];
  wg = 2;
  closed = false;
  val = none;
  canceled = false;
}

Step-refines_example :
    (iterator (record pool { workers = runs [] ∷ runs (result 2 ∷ []) ∷ []; val = some (result 1) })
      ≡ iterator pool)
    ⊎ Next (iterator pool) true (
        iterator
          (record pool { workers = runs [] ∷ runs (result 2 ∷ []) ∷ []; val = some (result 1) }))
Step-refines_example =
    Step-refines pool
      (record pool { workers = runs [] ∷ runs (result 2 ∷ []) ∷ []; val = some (result 1) })
      (delivers pool [] (runs (result 2 ∷ []) ∷ []) (result 1) [] refl) refl

abbrev two_children : List (List (Result ℕ))
two_children = (result 1 ∷ []) ∷ (result 2 ∷ []) ∷ []

-- The first child has yielded its value when the context ends, and gives it up.
abbrev offering : Pool ℕ
offering = record {
  workers = offers (result 1) [] ∷ runs (result 2 ∷ []) ∷ [];
  wg = 2;
  closed = false;
  val = none;
  canceled = false;
}

abbrev after_giving_up : Pool ℕ
after_giving_up = record offering {
  workers = finished ∷ runs (result 2 ∷ []) ∷ [];
  wg = 1;
  canceled = true;
}

giving_up : Reached two_children 2 after_giving_up
unfolding new_pool
giving_up =
    by_step
      (by_cancel (
        by_step at_start
          (produces (new_pool two_children) [] (runs (result 2 ∷ []) ∷ []) (result 1) [] refl)))
      (gives_up (record offering { canceled = true }) [] (runs (result 2 ∷ []) ∷ []) (result 1) []
        refl refl)

canceled_finishes_example :
    (2 ≤ 2 * length (all_of two_children) + length two_children + 1) × Closes after_giving_up
canceled_finishes_example = canceled_finishes two_children 2 after_giving_up giving_up refl
