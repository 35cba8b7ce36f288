-- ===== src/Tests/Traces.antt =====
-- Tracing where the collector can be reached, and where the environment turns it on.
use provider_minio.Base.{◌≡◌, true, none, some, String, List, [], ◌∷◌, ◌==◌, if◌then◌else◌}
use provider_minio.Runtime.{ok, World, is_ok}
use provider_minio.Client.Telemetry.{Telemetry}
use provider_minio.Tracing.Spans.{Tracing, start_span, start_span_with_attrs, span_attrs}
use provider_minio.Tracing.Export.{init}
use provider_minio.Tracing.Outcomes.{Outcome, init_outcomes}

-- The providers that were set and those that were shut down, the last one first.
record Collector : Type 0 where
  installed : List String
  stopped : List String

abbrev otel : Telemetry Collector String String String String String
otel = record {
  getenv = λ s key. if key == "OTEL_TRACING_ENABLED" then "true" else "";
  parse_bool = λ text. if text == "true" then some true else none;
  parse_float = λ text. some text;
  tenth = "0.1";
  service_name_key = "service.name";
  new_resource = λ s attributes. some "resource";
  new_exporter = λ s endpoint insecure. (some endpoint, s);
  new_tracer_provider = λ exporter attributes ratio. exporter;
  set_tracer_provider = λ s tp. record s { installed = tp ∷ s.installed };
  set_text_map_propagator = λ s propagators. s;
  shutdown = λ s tp. (ok tt, record s { stopped = tp ∷ s.stopped });
  start = λ s tracer name attributes. (name, s);
}

abbrev untraced : World Collector (Tracing String)
untraced = record {
  outside = record { installed = []; stopped = [] };
  events = [];
  resource = record { tracer = none; tp = none };
}

init_outcomes_example :
    let (r, w') = init otel "provider-minio" untraced in
    (start_span_with_attrs otel "user.observe" "User" "ann" "observe" w'
      ≡ start_span otel "user.observe" (span_attrs "User" "ann" "observe") w')
    × (is_ok (start_span_with_attrs otel "user.observe" "User" "ann" "observe" w').0 ≡ true)
    × Outcome otel "provider-minio" untraced (r, w')
init_outcomes_example =
    init_outcomes otel "provider-minio" untraced "user.observe" "User" "ann" "observe"
