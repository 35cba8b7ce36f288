-- ===== src/Client/Telemetry.antt =====
-- The OpenTelemetry packages that tracing uses, with the environment and the package strconv.
use provider_minio.Base.{String, Bool, List, Option}
use provider_minio.Runtime.{Result}

-- A number of the type float64 is an `F`, with 0.1 as `tenth`. The attributes are keys with texts; a
-- resource is made with the name of the service under `service_name_key` and others. An exporter goes
-- to an endpoint and may be without TLS. What fails gives none, as the program drops these errors. `start` is `tracer.Start` of the tracer of a name.
pub record Telemetry (S F Attributes Exporter Provider Span : Type 0) : Type 0 where
  pub getenv : S → String → String
  pub parse_bool : String → Option Bool
  pub parse_float : String → Option F
  pub tenth : F
  pub service_name_key : String
  pub new_resource : S → List (String × String) → Option Attributes
  pub new_exporter : S → String → Bool → Option Exporter × S
  pub new_tracer_provider : Exporter → Attributes → F → Provider
  pub set_tracer_provider : S → Provider → S
  pub set_text_map_propagator : S → List String → S
  pub shutdown : S → Provider → Result (Unit {0}) × S
  pub start : S → String → String → List (String × String) → Span × S
