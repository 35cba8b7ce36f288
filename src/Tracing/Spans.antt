-- ===== src/Tracing/Spans.antt =====
-- The package's variables, its helpers, and the start of a span.
use provider_minio.Base.{if◌then◌else◌, is_empty, String, Option, none, some, List, [], ◌∷◌}
use provider_minio.Runtime.{ok, panic, M}
use provider_minio.Client.Telemetry.{Telemetry}

-- The variables `tracer`, by its name, and `tp`.
pub record Tracing (Provider : Type 0) : Type 0 where
  pub tracer : Option String
  pub tp : Option Provider

abbrev pub tracer_name : String
tracer_name = "provider-minio"

-- `SpanAttrs`
unfoldable pub span_attrs : String → String → String → List (String × String)
span_attrs resource_type resource_name operation =
    ("crossplane.resource.type", resource_type)
    ∷ ("crossplane.resource.name", resource_name)
    ∷ ("crossplane.operation", operation)
    ∷ []

module _ {S F Attributes Exporter Provider Span : Type 0}
    (otel : Telemetry S F Attributes Exporter Provider Span) where
  -- `getEnv`
  unfoldable pub get_env : S → String → String → String
  get_env s key default = let value = otel.getenv s key in if is_empty value then default else value

  -- `StartSpan`; a nil tracer is called.
  unfoldable pub start_span : String → List (String × String) → M S (Tracing Provider) Span
  start_span name attrs w = elim w.resource.tracer [
    | none ↦ (panic, w)
    | some tracer ↦
        (let (span, s) = otel.start w.outside tracer name attrs in
          (ok span, record w { outside = s }))
  ]

  -- `StartSpanWithAttrs`
  unfoldable pub start_span_with_attrs :
      String → String → String → String → M S (Tracing Provider) Span
  start_span_with_attrs name resource_type resource_name operation w = elim w.resource.tracer [
    | none ↦ (panic, w)
    | some tracer ↦
        (let (span, s) = otel.start w.outside tracer name (
            ("crossplane.resource.type", resource_type)
            ∷ ("crossplane.resource.name", resource_name)
            ∷ ("crossplane.operation", operation)
            ∷ []) in
          (ok span, record w { outside = s }))
  ]
