-- ===== src/Harness.antt =====
-- drishti/m3_dynamic/harness.py: `DynamicHarness`, which runs on the sealed machine.
pub mod Guest
pub mod Steps
pub mod Run
mod Keeps
mod Inversion
mod Outcomes
mod Detonated
mod Restored
pub mod Admitted
mod Ended
mod Named
mod Recorded
pub mod Sealed
pub mod Reloads
pub mod Reloaded
