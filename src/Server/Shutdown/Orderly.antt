-- ===== src/Server/Shutdown/Orderly.antt =====
-- How a server of server.go stops.
use someguy.Prelude.{
  ℕ, zero, suc, ◌≡◌, refl, ap, ◌⊎◌, inl, inr, Bool, true, false, Option, none, some, List, [], ◌∷◌,
  arith, Option-cases, Bool-cases, ltb, subst,
}
use someguy.Records.{GoError}
use someguy.Server.{DhtKind}
use someguy.Server.Start.{is_some}
use someguy.Server.Shutdown.{
  Phase, awaits_signal, shuts_down, awaits_listener, closes_dht, returned, exited, Deferred,
  shutdown_tracer, cancel_timeout, Shutdown, serving, StopEvent, signaled, listener_stops,
  receives_signal, shutdown_succeeds, listener_joined, listen_fails, shutdown_fails, dht_closes,
  close_dht, run_defers, take_signal, fail_listener, stop_listener, join_listener, notify,
  quit_capacity, step_in, run_events,
}

-- Nothing that a return does has been done.
abbrev IsOpen : Shutdown → Type 0
IsOpen s = (s.dht_closed ≡ false) × (s.tracer ≡ none)

-- The DHT is closed if there is one, and the tracer was shut down with a context that was canceled.
abbrev pub IsClosed : Shutdown → Type 0
IsClosed s = (s.listening ≡ false) × (s.dht_closed ≡ is_some s.dht) × (s.tracer ≡ some true)

abbrev both : List Deferred
both = cancel_timeout ∷ shutdown_tracer ∷ []

abbrev HoldsIn : Phase → Shutdown → Type 0
HoldsIn awaits_signal s = IsOpen s × (s.defers ≡ shutdown_tracer ∷ [])
HoldsIn shuts_down s = IsOpen s × (s.defers ≡ both)
HoldsIn awaits_listener s = IsOpen s × (s.defers ≡ both)
HoldsIn closes_dht s = IsOpen s × (s.defers ≡ both) × (s.listening ≡ false)
HoldsIn returned s = IsClosed s
HoldsIn exited s = IsOpen s

abbrev Holds : Shutdown → Type 0
Holds s = HoldsIn s.phase s

abbrev Keeps : Option Shutdown → Type 0
Keeps none = Unit
Keeps (some s) = Holds s

same_phase :
    (p : Phase) (s : Shutdown) (n : ℕ) → s.phase ≡ p → HoldsIn p s → Holds (record s { quit = n })
same_phase awaits_signal s n q h = rw q h
same_phase shuts_down s n q h = rw q h
same_phase awaits_listener s n q h = rw q h
same_phase closes_dht s n q h = rw q h
same_phase returned s n q h = rw q h
same_phase exited s n q h = rw q h

notify-Keeps : (p : Phase) (s : Shutdown) → s.phase ≡ p → HoldsIn p s → Keeps (notify s)
notify-Keeps p s q h = elim (Bool-cases (ltb s.quit quit_capacity)) [
  | inl e ↦ rw e (same_phase p s (suc s.quit) q h)
  | inr e ↦ rw e (same_phase p s s.quit q h)
]

take_signal-Keeps : (n : ℕ) (s : Shutdown) → HoldsIn awaits_signal s → Keeps (take_signal n s)
take_signal-Keeps zero s h = tt
take_signal-Keeps (suc n) s h = (h.0, ap (λ ds. cancel_timeout ∷ ds) h.1)

fail_listener-Keeps : (b : Bool) (s : Shutdown) → IsOpen s → Keeps (fail_listener b s)
fail_listener-Keeps true s h = h
fail_listener-Keeps false s h = tt

stop_listener-Keeps :
    (b : Bool) (s : Shutdown)
    → IsOpen s × (s.defers ≡ both)
    → (s.phase ≡ shuts_down) ⊎ (s.phase ≡ awaits_listener)
    → Keeps (stop_listener b s)
stop_listener-Keeps true s h (inl q) = rw q h
stop_listener-Keeps true s h (inr q) = rw q h
stop_listener-Keeps false s h q = tt

join_listener-Keeps :
    (b : Bool) (s : Shutdown)
    → s.listening ≡ b
    → HoldsIn awaits_listener s
    → Keeps (join_listener b s)
join_listener-Keeps true s q h = tt
join_listener-Keeps false s q h = (h.0, h.1, q)

return-Holds :
    (dht : Option DhtKind) (err : Option GoError) (s : Shutdown)
    → s.dht ≡ dht
    → HoldsIn closes_dht s
    → let s' = close_dht dht err s in Holds (run_defers s'.defers (record s' { phase = returned }))
unfolding close_dht run_defers
return-Holds none err s q (o, d, l) = rw (d, q) (l, o.0, refl)
return-Holds (some kind) err s q (o, d, l) = rw (d, q) (l, refl, refl)

step_in-Keeps :
    (p : Phase) (e : StopEvent) (s : Shutdown) → s.phase ≡ p → HoldsIn p s → Keeps (step_in p e s)
unfolding step_in
step_in-Keeps returned signaled s q h = tt
step_in-Keeps exited signaled s q h = tt
step_in-Keeps awaits_signal signaled s q h = notify-Keeps awaits_signal s q h
step_in-Keeps shuts_down signaled s q h = notify-Keeps shuts_down s q h
step_in-Keeps awaits_listener signaled s q h = notify-Keeps awaits_listener s q h
step_in-Keeps closes_dht signaled s q h = notify-Keeps closes_dht s q h
step_in-Keeps awaits_signal receives_signal s q h = take_signal-Keeps s.quit s h
step_in-Keeps awaits_signal (listen_fails e) s q h = fail_listener-Keeps s.listening s h.0
step_in-Keeps shuts_down (listen_fails e) s q h = fail_listener-Keeps s.listening s h.0
step_in-Keeps shuts_down listener_stops s q h = stop_listener-Keeps s.listening s h (inl q)
step_in-Keeps shuts_down shutdown_succeeds s q h = h
step_in-Keeps shuts_down (shutdown_fails e) s q h = h.0
step_in-Keeps awaits_listener (listen_fails e) s q h = fail_listener-Keeps s.listening s h.0
step_in-Keeps awaits_listener listener_stops s q h = stop_listener-Keeps s.listening s h (inr q)
step_in-Keeps awaits_listener listener_joined s q h = join_listener-Keeps s.listening s refl h
step_in-Keeps closes_dht (dht_closes err) s q h = return-Holds s.dht err s refl h
step_in-Keeps p e s q h = tt

run_events-Holds :
    (es : List StopEvent) (s s' : Shutdown) → Holds s → run_events es s ≡ some s' → Holds s'
unfolding run_events
run_events-Holds [] s s' h r = ground (arith, subst Keeps r h)
run_events-Holds (e ∷ es) s s' h r = elim (Option-cases (step_in s.phase e s)) [
  | inl n ↦ absurd (ground arith)
  | inr (t, q) ↦
      run_events-Holds es t s' (subst Keeps q (step_in-Keeps s.phase e s refl h))
        (ground (arith, r))
]

serving-Holds : (dht : Option DhtKind) → Holds (serving dht)
unfolding serving
serving-Holds dht = ((refl, refl), refl)

-- However signals, the listener and the shutdown interleave, when start returns the listener has stopped and the
-- DHT has been closed, if there is one, whatever error its Close returned; and
-- tp.Shutdown was called with a context that had been canceled, since the variable ctx held
-- that of the graceful shutdown by then.
pub returns-IsClosed :
    (dht : Option DhtKind) (es : List StopEvent) (s : Shutdown)
    → run_events es (serving dht) ≡ some s
    → s.phase ≡ returned
    → IsClosed s
returns-IsClosed dht es s r q =
    subst (λ p. HoldsIn p s) q (run_events-Holds es (serving dht) s (serving-Holds dht) r)

-- A server that does not get to listen, or whose graceful shutdown fails, exits with the DHT open and the
-- tracer running.
exits-IsOpen :
    (dht : Option DhtKind) (es : List StopEvent) (s : Shutdown)
    → run_events es (serving dht) ≡ some s
    → s.phase ≡ exited
    → IsOpen s
exits-IsOpen dht es s r q =
    subst (λ p. HoldsIn p s) q (run_events-Holds es (serving dht) s (serving-Holds dht) r)
