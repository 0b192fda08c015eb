-- ===== src/Examples/Process.antt =====
-- A server that is stopped by a signal, and tracing with every span of the server sampled.
use someguy.Prelude.{◌≡◌, ◌⊎◌, refl, true, false, none, some, [], ◌∷◌, ℕ, List}
use someguy.Prelude.Bytes.{codes, has_prefix}
use someguy.Records.{canceled}
use someguy.Routers.Compose.{ok}
use someguy.Server.{accelerated_dht}
use someguy.Server.Shutdown.{
  Shutdown, serving, StopEvent, signaled, receives_signal, listener_stops, shutdown_succeeds,
  listener_joined, dht_closes, returned, run_events,
}
use someguy.Server.Shutdown.Orderly.{IsClosed, returns-IsClosed}
use someguy.Tracing.{
  SamplingParameters, drop, record_and_sample, ProviderOptions, Telemetry, Globals, SamplerLaws,
  setup_tracing, setup_tracing-samples, root_sampler,
}

abbrev events : List StopEvent
events =
    signaled
    ∷ receives_signal
    ∷ signaled
    ∷ listener_stops
    ∷ shutdown_succeeds
    ∷ listener_joined
    ∷ dht_closes (some canceled)
    ∷ []

abbrev stopped : Shutdown
stopped = record {
  dht = some accelerated_dht;
  phase = returned;
  quit = 1;
  listening = false;
  ctx_canceled = true;
  defers = [];
  dht_closed = true;
  tracer = some true;
  logged = canceled ∷ [];
}

returns-IsClosed_example : IsClosed stopped
unfolding run_events serving
returns-IsClosed_example = returns-IsClosed (some accelerated_dht) events stopped refl refl

-- A sampler that takes every span, and one that takes none; the parent-based one asks its own.
abbrev telemetry : Telemetry ℕ ℕ ℕ
telemetry = record {
  new_span_exporters = ok (1 ∷ []);
  merge_resource = ok 2;
  never_sample = λ p. record { decision = drop; tracestate = p.parent_state };
  ratio_based = λ p. record { decision = record_and_sample; tracestate = 3 };
  parent_based = λ s p. s p;
}

laws : SamplerLaws telemetry
laws = record { never = λ p. refl; root = λ s p h. refl }

abbrev untraced : Globals telemetry
untraced = record { provider = none; has_propagator = false }

abbrev options : ProviderOptions ℕ ℕ ℕ
options = record { batchers = 1 ∷ []; resource = 2; sampler = root_sampler telemetry.ratio_based }

abbrev root_span : SamplingParameters ℕ
root_span = record { parent_is_valid = false; parent_state = 0; name = codes "someguy.request" }

setup_tracing-samples_example :
    ((setup_tracing telemetry false untraced).1.provider ≡ some options)
    × (((options.sampler root_span).decision ≡ drop)
        ⊎ ((has_prefix root_span.name (codes "someguy") ≡ true)
            × (false ≡ false)
            × (options.sampler root_span ≡ telemetry.ratio_based root_span)))
unfolding setup_tracing
setup_tracing-samples_example =
    setup_tracing-samples telemetry laws false untraced options root_span refl refl
