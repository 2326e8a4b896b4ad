-- ===== src/TraceSource.antt =====
-- drishti/m3_dynamic/trace_source.py and detonator.py: where a trace comes from, a live run or a fixture.
pub mod Gcloud
pub mod Retries
pub mod Detonator
pub mod Live
pub mod Measured
pub mod Replay
pub mod Declared
