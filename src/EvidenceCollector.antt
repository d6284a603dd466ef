-- ===== src/EvidenceCollector.antt =====
-- services/evidence-collector: the service that takes in evidence files, lists them, and verifies them
-- against the ledger.
pub mod Records
pub mod Access
pub mod Visibility
pub mod Outbox
pub mod Verify
pub mod Verdicts
pub mod Integrity
pub mod Forgery
pub mod Upload
pub mod Ingestion
pub mod Draining
pub mod Examples
