-- ===== src/ImmutableLedger.antt =====
-- services/immutable-ledger: the service that keeps a chain of hashed records for each case.
pub mod Hashing
pub mod Records
pub mod Appending
pub mod Validation
pub mod Chain
pub mod Reversed
pub mod Tampering
pub mod Kept
pub mod Refinement
pub mod RoundTrip
pub mod Access
pub mod Examples
pub mod Columns
