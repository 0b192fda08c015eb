-- ===== src/Tracing.antt =====
-- tracing.go: the tracer provider of the process and which spans it samples. The exporters, the resource and
-- the parent-based sampler are OpenTelemetry's.
use someguy.Prelude.{
  ◌≡◌, ◌⊎◌, inl, inr, Bool, true, false, not, Option, some, List, if◌then◌else◌, arith, Bool-cases,
}
use someguy.Routers.Compose.{Fallible, Fallible-cases, ok, fails}
use someguy.Prelude.Bytes.{Bytes, codes, has_prefix}

-- T: trace states. The span context of the parent is valid or not.
pub record SamplingParameters (T : Type 0) : Type 0 where
  pub parent_is_valid : Bool
  pub parent_state : T
  pub name : Bytes

pub data Decision : Type 0 where
  drop record_only record_and_sample : Decision

pub record SamplingResult (T : Type 0) : Type 0 where
  pub decision : Decision
  pub tracestate : T

-- CascadingSamplerFunc and ShouldSample of funcSampler.
unfoldable pub cascading_sampler :
    {T : Type 0}
    → (SamplingParameters T → Bool)
    → (SamplingParameters T → SamplingResult T)
    → SamplingParameters T
    → SamplingResult T
cascading_sampler should_sample next p =
    if should_sample p then next p else record { decision = drop; tracestate = p.parent_state }

-- trace.NeverSample and trace.TraceIDRatioBased.
unfoldable pub base_sampler :
    {T : Type 0}
    → (is_zero : Bool) → (never_sample ratio_based : SamplingParameters T → SamplingResult T)
    → SamplingParameters T
    → SamplingResult T
base_sampler is_zero never_sample ratio_based = if is_zero then never_sample else ratio_based

-- The sampler of spans without a sampled parent, in NewTracerProvider.
unfoldable pub root_sampler :
    {T : Type 0}
    → (SamplingParameters T → SamplingResult T)
    → SamplingParameters T
    → SamplingResult T
unfolding cascading_sampler
root_sampler base =
    cascading_sampler (λ p. not p.parent_is_valid)
      (cascading_sampler (λ p. has_prefix p.name (codes "someguy")) base)

-- The options of trace.NewTracerProvider. E: exporters of spans, R: resources.
pub record ProviderOptions (E R T : Type 0) : Type 0 where
  pub batchers : List E
  pub resource : R
  pub sampler : SamplingParameters T → SamplingResult T

-- OpenTelemetry and boxo's tracing: what their calls return.
pub record Telemetry (E R T : Type 0) : Type 0 where
  pub new_span_exporters : Fallible (List E)
  pub merge_resource : Fallible R
  pub never_sample : SamplingParameters T → SamplingResult T
  pub ratio_based : SamplingParameters T → SamplingResult T
  pub parent_based :
      (SamplingParameters T → SamplingResult T) → SamplingParameters T → SamplingResult T

module _ {E R T : Type 0} (telemetry : Telemetry E R T) where
  -- `is_zero` says whether the fraction is 0.
  unfoldable pub new_tracer_provider : (is_zero : Bool) → Fallible (ProviderOptions E R T)
  unfolding base_sampler root_sampler
  new_tracer_provider is_zero = elim telemetry.new_span_exporters [
    | fails e ↦ fails e
    | ok exporters ↦ elim telemetry.merge_resource [
      | fails e ↦ fails e
      | ok resource ↦ ok (record {
        batchers = exporters;
        resource = resource;
        sampler =
            telemetry.parent_based
              (root_sampler (base_sampler is_zero telemetry.never_sample telemetry.ratio_based));
      })
    ]
  ]

  -- The tracer provider and the propagator of the process, none while they are OpenTelemetry's own.
  pub record Globals : Type 0 where
    pub provider : Option (ProviderOptions E R T)
    pub has_propagator : Bool

  unfoldable pub setup_tracing :
      (is_zero : Bool) → Globals → Fallible (ProviderOptions E R T) × Globals
  unfolding new_tracer_provider
  setup_tracing is_zero globals = elim (new_tracer_provider is_zero) [
    | fails e ↦ (fails e, globals)
    | ok p ↦ (ok p, record { provider = some p; has_propagator = true })
  ]

  -- What the libraries document of the two samplers.
  pub record SamplerLaws : Type 0 where
    pub never : (p : SamplingParameters T) → (telemetry.never_sample p).decision ≡ drop
    pub root :
        (s : SamplingParameters T → SamplingResult T) (p : SamplingParameters T)
        → p.parent_is_valid ≡ false
        → telemetry.parent_based s p ≡ s p

  abbrev sampler_of : Bool → SamplingParameters T → SamplingResult T
  sampler_of is_zero =
      telemetry.parent_based
        (root_sampler (base_sampler is_zero telemetry.never_sample telemetry.ratio_based))

  setup_tracing-ok :
      (is_zero : Bool) (globals : Globals) (o : ProviderOptions E R T)
      → (setup_tracing is_zero globals).0 ≡ ok o
      → ((setup_tracing is_zero globals).1.provider ≡ some o) × (o.sampler ≡ sampler_of is_zero)
  unfolding setup_tracing
  setup_tracing-ok is_zero globals o h = elim (Fallible-cases telemetry.new_span_exporters) [
    | inr (e, q) ↦ absurd (ground arith)
    | inl (exporters, q) ↦ elim (Fallible-cases telemetry.merge_resource) [
      | inr (e, r) ↦ absurd (ground arith)
      | inl (resource, r) ↦ ground (arith, h)
    ]
  ]

  -- Once tracing is set up, the process has the provider, and its sampler drops a span without a parent or
  -- samples it as the sampler for the fraction does: the latter only if the span's name begins
  -- with someguy and the fraction is not 0.
  pub setup_tracing-samples :
      (laws : SamplerLaws) (is_zero : Bool) (globals : Globals) (o : ProviderOptions E R T)
      (p : SamplingParameters T)
      → (setup_tracing is_zero globals).0 ≡ ok o
      → p.parent_is_valid ≡ false
      → ((setup_tracing is_zero globals).1.provider ≡ some o)
        × (((o.sampler p).decision ≡ drop)
            ⊎ ((has_prefix p.name (codes "someguy") ≡ true)
                × (is_zero ≡ false)
                × (o.sampler p ≡ telemetry.ratio_based p)))
  unfolding root_sampler base_sampler
  setup_tracing-samples laws is_zero globals o p h root =
      let (provider, is_sampler) = setup_tracing-ok is_zero globals o h in
      let at_root =
        laws.root (root_sampler (base_sampler is_zero telemetry.never_sample telemetry.ratio_based))
          p root in
      (
        provider,
        rw is_sampler (
            rw at_root (elim (Bool-cases (has_prefix p.name (codes "someguy"))) [
              | inr n ↦ inl (ground (arith, n))
              | inl y ↦ elim (Bool-cases is_zero) [
                | inl z ↦ inl (ground (arith, laws.never p))
                | inr z ↦ inr (y, z, ground arith)
              ]
            ])),
      )
