-- ===== src/ImmutableLedger/Validation.antt =====
-- services/immutable-ledger/servicer.py: the two calls that only read, `ValidateLedgerChain` and
-- `GetProofByArtifactId`.
use Prim.Native.String.{◌++◌}
use forensic_chain.Common.{
  ℕ, suc, String, Bool, true, false, Option, none, some, List, [], ◌∷◌, filter, if◌then◌else◌, not,
  ◌&&◌, ◌==◌, eqb, ltb, is_truthy, sort_by,
}
use forensic_chain.Python.{returned, raised, strip, same_option, format_option}
use forensic_chain.ImmutableLedger.Hashing.{Externals, compute_payload_hash, compute_record_hash}
use forensic_chain.ImmutableLedger.Records.{
  ProofColumns, LedgerRecord, LedgerDb, ArtifactIntegrityProofResponse, ValidateLedgerResponse,
  records_of,
}

abbrev pub invalid : ℕ → String → ValidateLedgerResponse
invalid n message = record { chain_valid = false; checked_records = n; error_message = message }

abbrev pub valid : ℕ → ValidateLedgerResponse
valid n = record { chain_valid = true; checked_records = n; error_message = "" }

abbrev no_columns : ProofColumns
no_columns = record {
  hash_algorithm = none;
  hash_value = none;
  signature_algorithm = none;
  signature_value = none;
  signer_id = none;
}

unfoldable pub no_proof_found : String → ArtifactIntegrityProofResponse
no_proof_found message = record {
  record_id = "";
  artifact_id = "";
  case_id = "";
  proof = no_columns;
  record_hash = "";
  success = false;
  error_message = message;
}

-- The filter of `GetProofByArtifactId`.
unfoldable pub is_proof_of : ℕ → LedgerRecord → Bool
is_proof_of artifact_id r =
    eqb r.artifact_id artifact_id && r.record_type == "EVIDENCE_PROOF_CREATED"

-- `ORDER BY created_at DESC`
unfoldable pub later : LedgerRecord → LedgerRecord → Bool
later a b = ltb b.created_at a.created_at

unfoldable pub first : List LedgerRecord → Option LedgerRecord
first [] = none
first (r ∷ rs) = some r

module _ (x : Externals) where
  -- The body of the loop, which returns at the first failure: none when it goes on.
  unfoldable pub record_error : Option String → LedgerRecord → Option String
  record_error expected r =
      let payload_hash = compute_payload_hash x r.raw_payload in
      if not (same_option r.previous_record_hash expected)
      then some (
          "Broken chain at record "
          ++ x.show_uuid r.record_id
          ++ ": expected prev_hash "
          ++ format_option expected
          ++ ", got "
          ++ format_option r.previous_record_hash)
      else if not (payload_hash == r.payload_hash)
      then some ("Corrupted payload hash at record " ++ x.show_uuid r.record_id)
      else if not (compute_record_hash x payload_hash r.previous_record_hash == r.record_hash)
      then some ("Corrupted record hash at record " ++ x.show_uuid r.record_id)
      else none

  -- The loop, with `expected_prev_hash` and `checked_records`.
  unfoldable pub validate_loop : Option String → ℕ → List LedgerRecord → ValidateLedgerResponse
  validate_loop expected n [] = valid n
  validate_loop expected n (r ∷ rs) =
      let rest = validate_loop (some r.record_hash) (suc n) rs in
      elim (record_error expected r) [ some message ↦ invalid n message | none ↦ rest ]

  -- `ValidateLedgerChain`, with the exception of the database, if any.
  unfoldable pub validate_ledger_chain : Option String → LedgerDb → String → ValidateLedgerResponse
  unfolding validate_loop
  validate_ledger_chain fault db requested =
      let case_id = strip requested in
      if not (is_truthy case_id)
      then invalid 0 "case_id is required for chain validation"
      else elim fault [
        | some message ↦ invalid 0 message
        | none ↦ validate_loop none 0 (records_of case_id db)
      ]

  unfoldable pub found_proof : LedgerRecord → ArtifactIntegrityProofResponse
  found_proof r = record {
    record_id = x.show_uuid r.record_id;
    artifact_id = x.show_uuid r.artifact_id;
    case_id = r.case_id;
    proof = r.proof;
    record_hash = r.record_hash;
    success = true;
    error_message = "";
  }

  unfoldable pub proof_response : Option LedgerRecord → ArtifactIntegrityProofResponse
  unfolding found_proof no_proof_found
  proof_response none = no_proof_found "Proof record not found"
  proof_response (some r) = found_proof r

  unfoldable pub get_proof_by_artifact_id :
      Option String → LedgerDb → String → ArtifactIntegrityProofResponse
  unfolding proof_response no_proof_found is_proof_of later first
  get_proof_by_artifact_id (some message) db requested = no_proof_found message
  get_proof_by_artifact_id none db requested = elim (x.parse_uuid requested) [
    | raised message ↦ no_proof_found message
    | returned artifact_id ↦
        proof_response (first (sort_by later (filter (is_proof_of artifact_id) db.records)))
  ]
