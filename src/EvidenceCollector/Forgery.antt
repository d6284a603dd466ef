-- ===== src/EvidenceCollector/Forgery.antt =====
-- The verification of a file against a ledger in whose table the columns of the proofs were changed.
use forensic_chain.Common.{map}
use forensic_chain.ImmutableLedger.Hashing.{Externals}
use forensic_chain.ImmutableLedger.Records.{ProofColumns, LedgerRecord, LedgerDb}

module _ (x : Externals) (columns : ProofColumns) where
  -- The record with these columns in place of its proof; what it is and of which artifact is kept.
  abbrev pub forge : LedgerRecord → LedgerRecord
  forge r = record r { proof = columns }

  abbrev pub forged : LedgerDb → LedgerDb
  forged db = record db { records = map forge db.records }
