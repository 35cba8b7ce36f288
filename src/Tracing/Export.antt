-- ===== src/Tracing/Export.antt =====
-- `Init`, which sets up the export of spans and returns what ends it.
use provider_minio.Base.{Bool, true, false, String, Option, none, some, [], ◌∷◌}
use provider_minio.Runtime.{ok, M, pure}
use provider_minio.Client.Telemetry.{Telemetry}
use provider_minio.Tracing.Spans.{Tracing, tracer_name, get_env}

-- `v, _ := f()` and `if v, err := f(); err == nil`: the value, or another after an error.
unfoldable pub value_or : {A : Type 0} → A → Option A → A
value_or default (some a) = a
value_or default none = default

module _ {S F Attributes Exporter Provider Span : Type 0}
    (otel : Telemetry S F Attributes Exporter Provider Span) where
  abbrev Handler : Type 0 → Type 0
  Handler A = M S (Tracing Provider) A

  -- `enabled`
  unfoldable pub is_enabled : S → Bool
  unfolding get_env value_or
  is_enabled s = value_or false (otel.parse_bool (get_env otel s "OTEL_TRACING_ENABLED" "false"))

  unfoldable pub sampling_ratio : S → F
  unfolding get_env value_or
  sampling_ratio s =
      value_or otel.tenth (otel.parse_float (get_env otel s "OTEL_SAMPLING_RATIO" "0.1"))

  -- The function that Init returns at its end.
  unfoldable pub stop : Handler (Unit {0})
  stop w = elim w.resource.tp [
    | none ↦ (ok tt, w)
    | some tp ↦ (ok tt, record w { outside = (otel.shutdown w.outside tp).1 })
  ]

  -- From the provider on.
  unfoldable pub install : Exporter → Attributes → F → Handler (Handler (Unit {0}))
  unfolding stop
  install exporter attributes ratio w =
      let tp = otel.new_tracer_provider exporter attributes ratio in
      let s = otel.set_tracer_provider w.outside tp in
      (
        ok stop,
        record w {
          outside = otel.set_text_map_propagator s ("tracecontext" ∷ "baggage" ∷ []);
          resource = record (w.resource) { tp = some tp };
        },
      )

  unfoldable pub export : String → Handler (Handler (Unit {0}))
  unfolding get_env install sampling_ratio
  export service_name w =
      let endpoint = get_env otel w.outside "OTEL_EXPORTER_OTLP_ENDPOINT" "localhost:4317" in
      let ratio = sampling_ratio w.outside in
      let attributes = otel.new_resource w.outside (
        (otel.service_name_key, get_env otel w.outside "OTEL_SERVICE_NAME" service_name)
        ∷ ("provider.type", "crossplane")
        ∷ []) in
      elim attributes [
        | some res ↦
            (let (made, s) = otel.new_exporter w.outside endpoint true in
              elim made [
                | some exporter ↦ install exporter res ratio (record w { outside = s })
                | none ↦ (ok (pure tt), record w { outside = s })
              ])
        | none ↦ (ok (pure tt), w)
      ]

  -- `Init`
  unfoldable pub init : String → Handler (Handler (Unit {0}))
  unfolding export is_enabled
  init service_name w =
      let named = record w { resource = record (w.resource) { tracer = some tracer_name } } in
      elim (is_enabled w.outside) [
        | true ↦ export service_name named
        | false ↦ (ok (pure tt), named)
      ]
