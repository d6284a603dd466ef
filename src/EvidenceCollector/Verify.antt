-- ===== src/EvidenceCollector/Verify.antt =====
-- services/evidence-collector/routers/evidence.py: `verify_evidence`, and grpc_clients: how it reads
-- the responses of the ledger.
use Prim.Native.String.{◌++◌}
use forensic_chain.Common.{ℕ, String, Bool, Option, none, some, if◌then◌else◌, not, ◌==◌}
use forensic_chain.Python.{
  Attempt, returned, raised, Answer, answered, http_error, uncaught, and_then, AssignmentsFetch,
  or_empty,
}
use forensic_chain.ImmutableLedger.Records.{ArtifactIntegrityProofResponse, ValidateLedgerResponse}
use forensic_chain.EvidenceCollector.Records.{Artifact, EvidenceDb, Caller}
use forensic_chain.EvidenceCollector.Access.{find_artifact, require_reader}
use forensic_chain.EvidenceCollector.Outbox.{write_outbox, requested_event, verification_event}

-- `get_proof_by_artifact`: the hash and the signature. A call that fails raises its error text.
unfoldable pub get_proof_by_artifact :
    Attempt ArtifactIntegrityProofResponse → Attempt (String × String)
get_proof_by_artifact (raised message) = raised message
get_proof_by_artifact (returned r) =
    if r.success
    then returned (or_empty r.proof.hash_value, or_empty r.proof.signature_value)
    else raised r.error_message

-- `validate_ledger_chain`, which keeps the verdict alone.
unfoldable pub validate_ledger_chain : Attempt ValidateLedgerResponse → Attempt Bool
validate_ledger_chain (raised message) = raised message
validate_ledger_chain (returned r) = returned r.chain_valid

-- The calls of the handler, each as `returned` or `raised` for the flag and the text of its tuple.
pub record Services : Type 0 where
  pub recompute_hash : Attempt String
  pub get_proof : Attempt (String × String)
  pub verify_signature : String → String → Attempt Bool
  pub validate_chain : Attempt Bool

pub record VerificationOut : Type 0 where
  pub artifact_id : String
  pub verification_result : String
  pub original_hash : String
  pub current_hash : String
  pub signature_valid : Bool
  pub ledger_chain_valid : Bool
  pub verified_at : String

-- The exceptions of the database at the two events, and of the writing of the temporary file, if any.
pub record Faults : Type 0 where
  pub requested : Option String
  pub temp_file : Option String
  pub result : Option String

-- Step 5.
unfoldable pub verdict : Bool → Bool → String → String → String
verdict is_valid_chain is_sig_valid current_hash orig_hash =
    if not is_valid_chain
    then "LEDGER_CORRUPTED"
    else if not is_sig_valid
    then "INVALID_SIGNATURE"
    else if not (current_hash == orig_hash)
    then "TAMPERED"
    else "VALID"

-- `if not success: raise HTTPException(status, detail=f"…{error}")`
unfoldable pub or_raise : {A : Type 0} → ℕ → String → Attempt A → Answer A
or_raise status detail (returned a) = answered a
or_raise status detail (raised error) = http_error status (detail ++ error)

-- Steps 1 to 5.
unfoldable pub steps : Services → String → String → Answer VerificationOut
steps s artifact_id now =
    and_then (or_raise 503 "Hash recomputation failed: " s.recompute_hash) (λ current_hash.
      and_then (or_raise 404 "Failed to fetch proof: " s.get_proof) (λ (orig_hash, orig_sig).
        and_then
          (or_raise 503 "Signature verification failed: " (s.verify_signature orig_hash orig_sig))
          (λ is_sig_valid.
            and_then (or_raise 503 "Ledger validation check failed: " s.validate_chain)
              (λ is_valid_chain. answered (record {
                artifact_id = artifact_id;
                verification_result = verdict is_valid_chain is_sig_valid current_hash orig_hash;
                original_hash = orig_hash;
                current_hash = current_hash;
                signature_valid = is_sig_valid;
                ledger_chain_valid = is_valid_chain;
                verified_at = now;
              })))))

-- Step 7: the event that tells the result.
unfoldable pub tell :
    Option String → Caller → String → EvidenceDb → Answer VerificationOut → EvidenceDb
tell fault c case_id db (http_error status detail) = db
tell fault c case_id db (answered out) =
    write_outbox fault (verification_event c out.artifact_id case_id out.verification_result) db

-- The handler once the artifact is found and the caller passed. A temporary file that cannot be
-- written ends it with an exception that nothing catches.
unfoldable pub verify_found :
    Services
    → Faults
    → Caller
    → EvidenceDb
    → String
    → String
    → Artifact
    → EvidenceDb × Answer VerificationOut
verify_found s f c db artifact_id now a =
    let db = write_outbox f.requested (requested_event c artifact_id a.case_id) db in
    let out = steps s artifact_id now in
    elim f.temp_file [
      | some message ↦ (db, uncaught)
      | none ↦ (tell f.result c a.case_id db out, out)
    ]

unfoldable pub verify_checked :
    Services
    → Faults
    → Caller
    → EvidenceDb
    → String
    → String
    → Artifact
    → Answer Unit
    → EvidenceDb × Answer VerificationOut
verify_checked s f c db artifact_id now a (http_error status detail) =
    (db, http_error status detail)
verify_checked s f c db artifact_id now a (answered passed) =
    verify_found s f c db artifact_id now a

unfoldable pub verify_in :
    (String → AssignmentsFetch)
    → Services
    → Faults
    → Caller
    → EvidenceDb
    → String
    → String
    → Answer Artifact
    → EvidenceDb × Answer VerificationOut
verify_in auth s f c db artifact_id now (http_error status detail) = (db, http_error status detail)
verify_in auth s f c db artifact_id now (answered a) =
    verify_checked s f c db artifact_id now a (require_reader auth c a)

-- `verify_evidence`: `parsed` is `uuid.UUID(artifact_id)`. The record that step 6 appends is of the
-- ledger.
unfoldable pub verify_evidence :
    (String → AssignmentsFetch)
    → Services
    → Faults
    → Caller
    → EvidenceDb
    → String
    → Attempt ℕ
    → String
    → EvidenceDb × Answer VerificationOut
verify_evidence auth s f c db artifact_id parsed now =
    verify_in auth s f c db artifact_id now (find_artifact db parsed)
