-- ===== src/Examples.antt =====
-- Runs of the models on small inputs.
mod LedgerRuns
pub mod ContainmentRuns
mod ScoreRuns
mod TraceRuns
mod Flat
mod PipelineRuns
mod SafetyRuns
pub mod HarnessRuns
mod SandboxRuns
