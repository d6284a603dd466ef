-- ===== src/ImmutableLedger/Appending.antt =====
-- services/immutable-ledger/servicer.py: `_append_record` and the two calls that go through it, as
-- functions of the database. What surrounds a call is its argument.
use forensic_chain.Common.{
  ℕ, String, true, false, Option, none, some, List, [], ◌∷◌, ◌++◌ as append, if◌then◌else◌, or_else,
  lookup, insert, is_some,
}
use forensic_chain.Python.{Attempt, returned, raised, or_empty}
use forensic_chain.ImmutableLedger.Hashing.{Payload, Externals, create_hash_chain_entry}
use forensic_chain.ImmutableLedger.Records.{
  ProofColumns, LedgerRecord, LedgerDb, ProofRecordRequest, VerificationRecordRequest,
  ProofRecordResponse,
}

-- One call's surroundings: the UUID that is drawn, the clock, and the exception of the database, if
-- any, from the statements before the insertion and from those after it.
pub record Surroundings : Type 0 where
  pub record_id : ℕ
  pub now : ℕ
  pub early_fault : Option String
  pub late_fault : Option String

-- The value of `last_record_hash` in the row of a case; None without a row.
unfoldable pub head_of : String → List (String × Option String) → Option String
head_of case_id states = or_else (lookup case_id states) none

-- `INSERT … ON CONFLICT (case_id) DO NOTHING`
unfoldable pub ensure_state : String → List (String × Option String) → List (String × Option String)
ensure_state case_id states =
    if is_some (lookup case_id states) then states else insert case_id none states

-- What the caller of `_append_record` gives.
pub record Entry : Type 0 where
  pub raw_payload : Payload
  pub artifact_id : String
  pub case_id : String
  pub record_type : String
  pub proof : ProofColumns

abbrev no_proof : ProofColumns
no_proof = record {
  hash_algorithm = none;
  hash_value = none;
  signature_algorithm = none;
  signature_value = none;
  signer_id = none;
}

-- The entry of `AppendProofRecord`.
unfoldable pub proof_entry : ProofRecordRequest → Entry
proof_entry q = record {
  raw_payload =
      ("artifact_id", q.artifact_id)
      ∷ ("case_id", q.case_id)
      ∷ ("record_type", q.record_type)
      ∷ ("hash_algorithm", q.hash_algorithm)
      ∷ ("hash_value", q.hash_value)
      ∷ ("signature_algorithm", q.signature_algorithm)
      ∷ ("signature_value", q.signature_value)
      ∷ ("signer_id", q.signer_id)
      ∷ ("created_at", q.created_at)
      ∷ [];
  artifact_id = q.artifact_id;
  case_id = q.case_id;
  record_type = q.record_type;
  proof = record {
    hash_algorithm = some q.hash_algorithm;
    hash_value = some q.hash_value;
    signature_algorithm = some q.signature_algorithm;
    signature_value = some q.signature_value;
    signer_id = some q.signer_id;
  };
}

-- The entry of `AppendVerificationRecord`.
unfoldable pub verification_entry : VerificationRecordRequest → Entry
verification_entry q = record {
  raw_payload =
      ("artifact_id", q.artifact_id)
      ∷ ("case_id", q.case_id)
      ∷ ("record_type", q.record_type)
      ∷ ("verification_result", q.verification_result)
      ∷ ("original_hash", q.original_hash)
      ∷ ("current_hash", q.current_hash)
      ∷ ("verified_by", q.verified_by)
      ∷ ("verified_at", q.verified_at)
      ∷ [];
  artifact_id = q.artifact_id;
  case_id = q.case_id;
  record_type = q.record_type;
  proof = no_proof;
}

-- The response of the `except` branch, after the rollback.
unfoldable pub failed_append : Entry → String → ProofRecordResponse
failed_append entry message = record {
  record_id = "";
  artifact_id = entry.artifact_id;
  record_type = entry.record_type;
  payload_hash = "";
  previous_record_hash = "";
  record_hash = "";
  created_at = "";
  success = false;
  error_message = message;
}

module _ (x : Externals) where
  -- The row that is inserted.
  unfoldable pub new_record : Surroundings → Entry → ℕ → Option String → LedgerRecord
  new_record s entry artifact_id previous =
      let (payload_hash, record_hash) = create_hash_chain_entry x entry.raw_payload previous in
      record {
        record_id = s.record_id;
        artifact_id = artifact_id;
        case_id = entry.case_id;
        record_type = entry.record_type;
        proof = entry.proof;
        payload_hash = payload_hash;
        previous_record_hash = previous;
        record_hash = record_hash;
        raw_payload = entry.raw_payload;
        created_at = s.now;
      }

  -- What the committed transaction leaves: the row of the case's state stood there or was inserted.
  unfoldable pub commit : LedgerRecord → LedgerDb → LedgerDb
  commit r db = record {
    records = append db.records (r ∷ []);
    ledger_state = insert r.case_id (some r.record_hash) (ensure_state r.case_id db.ledger_state);
  }

  unfoldable pub appended : Entry → LedgerRecord → ProofRecordResponse
  appended entry r = record {
    record_id = x.show_uuid r.record_id;
    artifact_id = entry.artifact_id;
    record_type = entry.record_type;
    payload_hash = r.payload_hash;
    previous_record_hash = or_empty r.previous_record_hash;
    record_hash = r.record_hash;
    created_at = x.iso_format r.created_at;
    success = true;
    error_message = "";
  }

  unfoldable pub insert_record :
      Surroundings → LedgerDb → Entry → Attempt ℕ → LedgerDb × ProofRecordResponse
  unfolding new_record commit head_of ensure_state
  insert_record s db entry (raised message) = (db, failed_append entry message)
  insert_record s db entry (returned artifact_id) =
      let states = ensure_state entry.case_id db.ledger_state in
      let r = new_record s entry artifact_id (head_of entry.case_id states) in
      elim s.late_fault [
        | some message ↦ (db, failed_append entry message)
        | none ↦ (commit r db, appended entry r)
      ]

  -- `_append_record`: one transaction, which is rolled back on any exception.
  unfoldable pub append_record : Surroundings → LedgerDb → Entry → LedgerDb × ProofRecordResponse
  unfolding insert_record
  append_record s db entry = elim s.early_fault [
    | some message ↦ (db, failed_append entry message)
    | none ↦ insert_record s db entry (x.parse_uuid entry.artifact_id)
  ]

  unfoldable pub append_proof_record :
      Surroundings → LedgerDb → ProofRecordRequest → LedgerDb × ProofRecordResponse
  append_proof_record s db q = append_record s db (proof_entry q)

  unfoldable pub append_verification_record :
      Surroundings → LedgerDb → VerificationRecordRequest → LedgerDb × ProofRecordResponse
  append_verification_record s db q = append_record s db (verification_entry q)
