-- ===== src/ChainOfCustody.antt =====
-- services/chain-of-custody: the service that takes events from a queue and keeps, for each artifact,
-- a chain of them.
pub mod Events
pub mod Consumer
pub mod Timeline
pub mod Stored
pub mod Deliveries
pub mod Duplicates
pub mod Retries
pub mod Settling
pub mod Late
pub mod Reading
pub mod Examples
