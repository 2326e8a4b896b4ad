-- ===== src/Ledger.antt =====
-- drishti/ledger and drishti/contracts/evidence.py: the evidence ledger.
pub mod Evidence
pub mod Platform
pub mod Row
pub mod Store
pub mod Query
pub mod Chain
pub mod Grounding
pub mod Lookup
pub mod Verifier
