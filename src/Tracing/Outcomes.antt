-- ===== src/Tracing/Outcomes.antt =====
-- What Init leaves, and what the function that it returns does.
use provider_minio.Base.{
  Option, none, is_empty, if◌then◌else◌, subst, sym, ◌≡◌, ◌⊎◌, inl, inr, true, false, String, some,
  Option-cases, Bool-cases, arith, [], ◌∷◌,
}
use provider_minio.Runtime.{ok, M, World, pure, is_ok, Result}
use provider_minio.Client.Telemetry.{Telemetry}
use provider_minio.Tracing.Spans.{
  Tracing, tracer_name, get_env, start_span, start_span_with_attrs, span_attrs,
}
use provider_minio.Tracing.Export.{
  is_enabled, value_or, stop, export, init, install, sampling_ratio,
}

module _ {S F Attributes Exporter Provider Span : Type 0}
    (otel : Telemetry S F Attributes Exporter Provider Span) where
  -- A variable of the environment, or a default where it is empty or unset.
  abbrev setting : S → String → String → String
  setting s key default = if is_empty (otel.getenv s key) then default else otel.getenv s key

  -- Tracing is on: the variable is set to a text that parses as true.
  abbrev pub IsOn : S → Type 0
  IsOn s = otel.parse_bool (setting s "OTEL_TRACING_ENABLED" "false") ≡ some true

  -- The ratio of the environment, and a tenth where it does not parse.
  abbrev pub IsRatio : S → F → Type 0
  IsRatio s ratio =
      let parsed = otel.parse_float (setting s "OTEL_SAMPLING_RATIO" "0.1") in
      (parsed ≡ some ratio) ⊎ ((parsed ≡ none) × (ratio ≡ otel.tenth))

  abbrev pub attributes_of : S → String → Option Attributes
  attributes_of s service_name = otel.new_resource s (
      (otel.service_name_key, setting s "OTEL_SERVICE_NAME" service_name)
      ∷ ("provider.type", "crossplane")
      ∷ [])

  -- The exporter to the endpoint of the environment, without TLS, and the state after its making.
  abbrev pub exporter_of : S → Option Exporter × S
  exporter_of s =
      otel.new_exporter s (setting s "OTEL_EXPORTER_OTLP_ENDPOINT" "localhost:4317") true

  -- What was returned does nothing, and the variable `tp` is as before.
  abbrev IsInert :
      World S (Tracing Provider)
      → Result (M S (Tracing Provider) (Unit {0})) × World S (Tracing Provider)
      → S
      → Type 0
  IsInert w (r, w') s = (r ≡ ok (pure tt)) × (w'.resource.tp ≡ w.resource.tp) × (w'.outside ≡ s)

  -- The provider is made of the parts, set as the global one with the two propagators, and kept in the
  -- variable `tp`; and what was returned shuts it down and changes nothing else.
  pub record IsInstalled (w' : World S (Tracing Provider))
      (r : Result (M S (Tracing Provider) (Unit {0}))) (s : S) (exporter : Exporter)
      (attributes : Attributes) (ratio : F) : Type 0 where
    pub stop_returned : r ≡ ok (stop otel)
    pub kept : w'.resource.tp ≡ some (otel.new_tracer_provider exporter attributes ratio)
    pub set_globally :
        w'.outside
        ≡ otel.set_text_map_propagator
            (otel.set_tracer_provider s (otel.new_tracer_provider exporter attributes ratio))
            ("tracecontext" ∷ "baggage" ∷ [])
    pub stops : stop otel w' ≡ (
      ok tt,
      record w' {
        outside = (otel.shutdown w'.outside (otel.new_tracer_provider exporter attributes ratio)).1;
      },
    )

  -- The four ways in which Init ends.
  pub data Outcome (service_name : String) (w : World S (Tracing Provider))
      (t : Result (M S (Tracing Provider) (Unit {0})) × World S (Tracing Provider)) : Type 0 where
    off : (¬ IsOn w.outside) → IsInert w t w.outside → Outcome service_name w t
    no_attributes :
        IsOn w.outside
        → attributes_of w.outside service_name ≡ none
        → IsInert w t w.outside
        → Outcome service_name w t
    no_exporter :
        {attributes : Attributes}
        → IsOn w.outside
        → attributes_of w.outside service_name ≡ some attributes
        → (exporter_of w.outside).0 ≡ none
        → IsInert w t (exporter_of w.outside).1
        → Outcome service_name w t
    installed :
        {attributes : Attributes} {exporter : Exporter} {ratio : F}
        → IsOn w.outside
        → attributes_of w.outside service_name ≡ some attributes
        → (exporter_of w.outside).0 ≡ some exporter
        → IsRatio w.outside ratio
        → IsInstalled t.1 t.0 (exporter_of w.outside).1 exporter attributes ratio
        → Outcome service_name w t

  enabled-IsOn : (s : S) → is_enabled otel s ≡ true → IsOn s
  unfolding is_enabled get_env value_or
  enabled-IsOn s h =
      elim (Option-cases (otel.parse_bool (setting s "OTEL_TRACING_ENABLED" "false"))) [
        | inl n ↦ absurd (ground arith)
        | inr (true, e) ↦ e
        | inr (false, e) ↦ absurd (ground arith)
      ]

  disabled-IsOn : (s : S) → is_enabled otel s ≡ false → ¬ IsOn s
  unfolding is_enabled get_env value_or
  disabled-IsOn s h e = absurd (ground arith)

  sampling-IsRatio : (s : S) → IsRatio s (sampling_ratio otel s)
  unfolding sampling_ratio get_env value_or
  sampling-IsRatio s =
      elim (Option-cases (otel.parse_float (setting s "OTEL_SAMPLING_RATIO" "0.1"))) [
        | inl n ↦ inr (n, ground arith)
        | inr (ratio, e) ↦ inl (ground arith)
      ]

  -- The world in which Init goes on.
  abbrev named : World S (Tracing Provider) → World S (Tracing Provider)
  named w = record w { resource = record (w.resource) { tracer = some tracer_name } }

  export-Outcome :
      (service_name : String) (w : World S (Tracing Provider))
      → IsOn w.outside
      → ((export otel service_name (named w)).1.resource.tracer ≡ some tracer_name)
        × Outcome service_name w (export otel service_name (named w))
  unfolding export install stop get_env
  export-Outcome service_name w on = elim (Option-cases (attributes_of w.outside service_name)) [
    | inl failed ↦
        (ground arith, no_attributes on failed (ground arith, ground arith, ground arith))
    | inr (attributes, made) ↦ elim (Option-cases (exporter_of w.outside).0) [
      | inl failed ↦
          (ground arith, no_exporter on made failed (ground arith, ground arith, ground arith))
      | inr (exporter, opened) ↦ (
        ground arith,
        installed on made opened (sampling-IsRatio w.outside) (record {
          stop_returned = ground arith;
          kept = ground arith;
          set_globally = ground arith;
          stops = ground arith;
        }),
      )
    ]
  ]

  enabled-init :
      (service_name : String) (w : World S (Tracing Provider))
      → is_enabled otel w.outside ≡ true
      → init otel service_name w ≡ export otel service_name (named w)
  unfolding init
  enabled-init service_name w on = rw (on, init)

  -- After Init a span can be started, as StartSpan does with the attributes of SpanAttrs. And Init ends
  -- in one of four ways. Where tracing is off it changes nothing outside. Where it is on, and the
  -- attributes cannot be made, it changes nothing either; where the exporter cannot be made, nothing
  -- but that call does; in all three it returns what does nothing. Where both are made, the provider
  -- of the exporter, the attributes and the sampling ratio is installed and kept, and what Init
  -- returns shuts it down.
  pub init_outcomes :
      (service_name : String) (w : World S (Tracing Provider))
      (name resource_type resource_name operation : String)
      → let (r, w') = init otel service_name w in
        (start_span_with_attrs otel name resource_type resource_name operation w'
          ≡ start_span otel name (span_attrs resource_type resource_name operation) w')
        × (is_ok (start_span_with_attrs otel name resource_type resource_name operation w').0
            ≡ true)
        × Outcome service_name w (r, w')
  unfolding init start_span_with_attrs start_span span_attrs
  init_outcomes service_name w name resource_type resource_name operation =
      elim (Bool-cases (is_enabled otel w.outside)) [
        | inl on ↦
            let (kept, outcome) = export-Outcome service_name w (enabled-IsOn w.outside on) in
            (
              ground arith,
              ground arith,
              subst (λ t. Outcome service_name w t) (sym (enabled-init service_name w on)) outcome,
            )
        | inr unset ↦ (
          ground arith,
          ground arith,
          off (disabled-IsOn w.outside unset) (ground arith, ground arith, ground arith),
        )
      ]
