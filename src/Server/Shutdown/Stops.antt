-- ===== src/Server/Shutdown/Stops.antt =====
-- The states from which the end of `start` of server.go can be reached: the events that lead to its return.
use someguy.Prelude.{
  ℕ, suc, ◌≡◌, ◌≢◌, refl, inl, inr, Bool, true, false, none, some, List, [], ◌∷◌, ℕ-cases,
}
use someguy.Server.Shutdown.{
  Phase, awaits_signal, shuts_down, awaits_listener, closes_dht, returned, exited, Deferred,
  shutdown_tracer, cancel_timeout, Shutdown, StopEvent, signaled, listener_stops, receives_signal,
  shutdown_succeeds, listener_joined, dht_closes, close_dht, run_defers, step_in, run_events,
}

-- A signal that was sent or comes now, and calls that succeed, bring the server to its return.
abbrev CanReturn : Shutdown → Type 0
CanReturn s =
    (es : List StopEvent) × (s' : Shutdown) × (run_events es s ≡ some s') × (s'.phase ≡ returned)

returns : (s : Shutdown) → run_events [] s ≡ some s
unfolding run_events
returns s = refl

run_defers-phase : (ds : List Deferred) (s : Shutdown) → (run_defers ds s).phase ≡ s.phase
unfolding run_defers
run_defers-phase [] s = refl
run_defers-phase (cancel_timeout ∷ ds) s = run_defers-phase ds (record s { ctx_canceled = true })
run_defers-phase (shutdown_tracer ∷ ds) s =
    run_defers-phase ds (record s { tracer = some s.ctx_canceled })

after :
    (e : StopEvent) (s s' : Shutdown) → step_in s.phase e s ≡ some s' → CanReturn s' → CanReturn s
unfolding run_events
after e s s' q (es, t, r, p) = (e ∷ es, t, rw (q, run_events) r, p)

from_closes_dht : (s : Shutdown) → s.phase ≡ closes_dht → CanReturn s
unfolding step_in
from_closes_dht s q =
    let c = close_dht s.dht none s in
    let t = run_defers c.defers (record c { phase = returned }) in
    after (dht_closes none) s t (rw q refl)
      ([], t, returns t, run_defers-phase c.defers (record c { phase = returned }))

from_joinable :
    (b : Bool) (s : Shutdown) → s.listening ≡ b → s.phase ≡ awaits_listener → CanReturn s
unfolding step_in
from_joinable false s l q =
    after listener_joined s (record s { phase = closes_dht }) (rw (q, l) refl)
      (from_closes_dht (record s { phase = closes_dht }) refl)
from_joinable true s l q =
    let t = record s { listening = false } in
    after listener_stops s t (rw (q, l) refl) (
      after listener_joined t (record t { phase = closes_dht }) (rw q refl)
        (from_closes_dht (record t { phase = closes_dht }) refl))

from_shuts_down : (s : Shutdown) → s.phase ≡ shuts_down → CanReturn s
unfolding step_in
from_shuts_down s q =
    let t = record s { phase = awaits_listener } in
    after shutdown_succeeds s t (rw q refl) (from_joinable t.listening t refl refl)

from_signaled : (n : ℕ) (s : Shutdown) → s.quit ≡ suc n → s.phase ≡ awaits_signal → CanReturn s
unfolding step_in
from_signaled n s k q =
    let t = record s { phase = shuts_down; quit = n; defers = cancel_timeout ∷ s.defers } in
    after receives_signal s t (rw (q, k) refl) (from_shuts_down t refl)

from_awaits_signal : (s : Shutdown) → s.phase ≡ awaits_signal → CanReturn s
unfolding step_in
from_awaits_signal s q = elim (ℕ-cases s.quit) [
  | inr (n, k) ↦ from_signaled n s k q
  | inl k ↦
      let t = record s { quit = 1 } in
      after signaled s t (rw (q, k) refl) (from_signaled 0 t refl q)
]

-- Wherever the server is, unless it has exited, it can come to its return: a signal, an end of the
-- listener, a shutdown or a Close of the DHT that is still to come is never blocked.
can_return : (p : Phase) (s : Shutdown) → s.phase ≡ p → p ≢ exited → CanReturn s
can_return awaits_signal s q n = from_awaits_signal s q
can_return shuts_down s q n = from_shuts_down s q
can_return awaits_listener s q n = from_joinable s.listening s refl q
can_return closes_dht s q n = from_closes_dht s q
can_return returned s q n = ([], s, returns s, q)
can_return exited s q n = absurd (n refl)
