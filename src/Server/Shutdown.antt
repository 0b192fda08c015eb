-- ===== src/Server/Shutdown.antt =====
-- The end of `start` of server.go, from the listener's goroutine to the return. The goroutine of the
-- listener, the signals and the main goroutine are events in the order in which they happen.
pub mod Orderly
pub mod Stops
use someguy.Prelude.{
  ℕ, zero, suc, Bool, true, false, Option, none, some, List, [], ◌∷◌, ltb, if◌then◌else◌,
}
use someguy.Records.{GoError, join_errors}
use someguy.Routers.Compose.{Fallible, ok, fails}
use someguy.Server.{DhtKind}

pub data Phase : Type 0 where
  awaits_signal shuts_down awaits_listener closes_dht returned exited : Phase

-- The calls that start defers.
pub data Deferred : Type 0 where
  shutdown_tracer cancel_timeout : Deferred

-- `quit` counts the signals that wait in the channel. `ctx_canceled` is of the context that the variable
-- ctx holds: context.WithTimeout puts a new one into the parameter, which the deferred call of
-- tp.Shutdown reads. `tracer` is whether the context that tp.Shutdown got was canceled, none
-- before it is called. The first of `defers` runs first.
pub record Shutdown : Type 0 where
  pub dht : Option DhtKind
  pub phase : Phase
  pub quit : ℕ
  pub listening : Bool
  pub ctx_canceled : Bool
  pub defers : List Deferred
  pub dht_closed : Bool
  pub tracer : Option Bool
  pub logged : List GoError

-- The server listens, and signals are notified.
unfoldable pub serving : Option DhtKind → Shutdown
serving dht = record {
  dht = dht;
  phase = awaits_signal;
  quit = 0;
  listening = true;
  ctx_canceled = false;
  defers = shutdown_tracer ∷ [];
  dht_closed = false;
  tracer = none;
  logged = [];
}

-- ListenAndServe returns an error other than ErrServerClosed, or it returns that one; the main goroutine
-- takes a signal; server.Shutdown returns; wg.Wait returns; and Close of the DHT returns.
pub data StopEvent : Type 0 where
  signaled listener_stops receives_signal shutdown_succeeds listener_joined : StopEvent
  listen_fails shutdown_fails : GoError → StopEvent
  dht_closes : Option GoError → StopEvent

abbrev pub quit_capacity : ℕ
quit_capacity = 3

-- A return of start runs its deferred calls.
unfoldable pub run_defers : List Deferred → Shutdown → Shutdown
run_defers [] s = record s { defers = [] }
run_defers (cancel_timeout ∷ ds) s = run_defers ds (record s { ctx_canceled = true })
run_defers (shutdown_tracer ∷ ds) s = run_defers ds (record s { tracer = some s.ctx_canceled })

abbrev log_error : Option GoError → List GoError → List GoError
log_error none es = es
log_error (some e) es = e ∷ es

-- The DHT is closed if it is an io.Closer: both types of DHT are, and nil is not.
unfoldable pub close_dht : Option DhtKind → Option GoError → Shutdown → Shutdown
close_dht none err s = s
close_dht (some kind) err s = record s { dht_closed = true; logged = log_error err s.logged }

abbrev pub take_signal : ℕ → Shutdown → Option Shutdown
take_signal zero s = none
take_signal (suc n) s =
    some (record s { phase = shuts_down; quit = n; defers = cancel_timeout ∷ s.defers })

abbrev pub stop_listener : Bool → Shutdown → Option Shutdown
stop_listener true s = some (record s { listening = false })
stop_listener false s = none

abbrev pub fail_listener : Bool → Shutdown → Option Shutdown
fail_listener true s = some (record s { phase = exited })
fail_listener false s = none

abbrev pub join_listener : Bool → Shutdown → Option Shutdown
join_listener true s = none
join_listener false s = some (record s { phase = closes_dht })

abbrev pub notify : Shutdown → Option Shutdown
notify s = some (if ltb s.quit quit_capacity then record s { quit = suc s.quit } else s)

-- An event in a phase; none where it cannot happen. log.Fatalf and logger.Fatalf exit, without the deferred
-- calls. A signal that finds the channel full is dropped.
unfoldable pub step_in : Phase → StopEvent → Shutdown → Option Shutdown
unfolding run_defers close_dht
step_in returned e s = none
step_in exited e s = none
step_in awaits_signal receives_signal s = take_signal s.quit s
step_in awaits_signal (listen_fails e) s = fail_listener s.listening s
step_in shuts_down (listen_fails e) s = fail_listener s.listening s
step_in shuts_down listener_stops s = stop_listener s.listening s
step_in shuts_down shutdown_succeeds s = some (record s { phase = awaits_listener })
step_in shuts_down (shutdown_fails e) s = some (record s { phase = exited })
step_in awaits_listener (listen_fails e) s = fail_listener s.listening s
step_in awaits_listener listener_stops s = stop_listener s.listening s
step_in awaits_listener listener_joined s = join_listener s.listening s
step_in closes_dht (dht_closes err) s =
    let s' = close_dht s.dht err s in some (run_defers s'.defers (record s' { phase = returned }))
step_in p signaled s = notify s
step_in p e s = none

unfoldable pub run_events : List StopEvent → Shutdown → Option Shutdown
unfolding step_in
run_events [] s = some s
run_events (e ∷ es) s = elim (step_in s.phase e s) [ none ↦ none | some s' ↦ run_events es s' ]
