-- ===== src/ImmutableLedger/Records.antt =====
-- services/immutable-ledger/db/models.py, and the messages of proto/ledger.proto.
use forensic_chain.Common.{
  ℕ, String, Bool, Option, List, filter, eqb, ltb, ◌&&◌, ◌||◌, ◌==◌, sort_by,
}
use forensic_chain.ImmutableLedger.Hashing.{Payload}

-- The nullable columns of a record, which only a proof fills.
pub record ProofColumns : Type 0 where
  pub hash_algorithm : Option String
  pub hash_value : Option String
  pub signature_algorithm : Option String
  pub signature_value : Option String
  pub signer_id : Option String

-- A row of `ledger_records`. A UUID is a number, and so is a time.
pub record LedgerRecord : Type 0 where
  pub record_id : ℕ
  pub artifact_id : ℕ
  pub case_id : String
  pub record_type : String
  pub proof : ProofColumns
  pub payload_hash : String
  pub previous_record_hash : Option String
  pub record_hash : String
  pub raw_payload : Payload
  pub created_at : ℕ

-- The table of the records in the order of their insertion, and `ledger_state` by its key, with
-- `last_record_hash`.
pub record LedgerDb : Type 0 where
  pub records : List LedgerRecord
  pub ledger_state : List (String × Option String)

pub record ProofRecordRequest : Type 0 where
  pub artifact_id : String
  pub case_id : String
  pub record_type : String
  pub hash_algorithm : String
  pub hash_value : String
  pub signature_algorithm : String
  pub signature_value : String
  pub signer_id : String
  pub created_at : String

pub record VerificationRecordRequest : Type 0 where
  pub artifact_id : String
  pub case_id : String
  pub record_type : String
  pub verification_result : String
  pub original_hash : String
  pub current_hash : String
  pub verified_by : String
  pub verified_at : String

pub record ProofRecordResponse : Type 0 where
  pub record_id : String
  pub artifact_id : String
  pub record_type : String
  pub payload_hash : String
  pub previous_record_hash : String
  pub record_hash : String
  pub created_at : String
  pub success : Bool
  pub error_message : String

pub record ArtifactIntegrityProofResponse : Type 0 where
  pub record_id : String
  pub artifact_id : String
  pub case_id : String
  pub proof : ProofColumns
  pub record_hash : String
  pub success : Bool
  pub error_message : String

pub record ValidateLedgerResponse : Type 0 where
  pub chain_valid : Bool
  pub checked_records : ℕ
  pub error_message : String

-- `LedgerRecord.case_id == case_id`
unfoldable pub in_case : String → LedgerRecord → Bool
in_case c r = r.case_id == c

-- `ORDER BY created_at ASC, record_id ASC`
unfoldable pub earlier : LedgerRecord → LedgerRecord → Bool
earlier a b =
    ltb a.created_at b.created_at || (eqb a.created_at b.created_at && ltb a.record_id b.record_id)

-- The query of `ValidateLedgerChain` and of `get_ledger_records`.
unfoldable pub records_of : String → LedgerDb → List LedgerRecord
records_of c db = sort_by earlier (filter (in_case c) db.records)
