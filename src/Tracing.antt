-- ===== src/Tracing.antt =====
-- internal/tracing/tracing.go: the spans that the older user controller starts, and their export, which
-- `main` sets up and ends.
pub mod Spans
pub mod Export
pub mod Outcomes
