-- ===== src/EvidenceCollector/Integrity.antt =====
-- The verification of a file against the ledger, after the proof of the original was appended.
use forensic_chain.Common.{
  String, Bool, true, none, ◌≡◌, refl, ◌∙◌, ap, ◌==◌, Bool-cases, inl, inr, if◌then◌else◌,
  is_truthy,
}
use forensic_chain.Python.{Attempt, returned, answered, and_then, strip}
use forensic_chain.ImmutableLedger.Hashing.{Externals}
use forensic_chain.ImmutableLedger.Records.{
  LedgerDb, ProofRecordRequest, ArtifactIntegrityProofResponse,
}
use forensic_chain.ImmutableLedger.Appending.{Surroundings, proof_entry, append_proof_record}
use forensic_chain.ImmutableLedger.Validation as Ledger
use forensic_chain.ImmutableLedger.Kept.{IsBefore, IsKept}
use forensic_chain.ImmutableLedger.Refinement.{append_record-IsKept, IsKept-chain_valid}
use forensic_chain.ImmutableLedger.RoundTrip.{Carries, get_proof-append}
use forensic_chain.EvidenceCollector.Verify.{
  Services, VerificationOut, get_proof_by_artifact, validate_ledger_chain, verdict, or_raise, steps,
}

-- `append_proof` of grpc_clients/ledger_client.py: the request that an upload sends.
unfoldable pub proof_request : String → String → String → String → String → ProofRecordRequest
proof_request artifact_id case_id hash_value signature_value created_at = record {
  artifact_id = artifact_id;
  case_id = case_id;
  record_type = "EVIDENCE_PROOF_CREATED";
  hash_algorithm = "SHA-256";
  hash_value = hash_value;
  signature_algorithm = "RSA-SHA256";
  signature_value = signature_value;
  signer_id = "hash-sign-service";
  created_at = created_at;
}

module _ (x : Externals) (check_signature : String → String → Bool) where
  -- The calls of a verification, when the ledger is `db` and every call comes through.
  unfoldable pub ledger_services : LedgerDb → String → String → String → Services
  ledger_services db artifact_id case_id current_hash = record {
    recompute_hash = returned current_hash;
    get_proof =
        get_proof_by_artifact (returned (Ledger.get_proof_by_artifact_id x none db artifact_id));
    verify_signature = λ hash signature. returned (check_signature hash signature);
    validate_chain =
        validate_ledger_chain (returned (Ledger.validate_ledger_chain x none db case_id));
  }

  get_proof-Carries :
      (q : ProofRecordRequest) (r : ArtifactIntegrityProofResponse)
      → Carries x q r
      → get_proof_by_artifact (returned r) ≡ returned (q.hash_value, q.signature_value)
  unfolding get_proof_by_artifact proof_entry
  get_proof-Carries q r h = rw (h.0, h.2) refl

  checked : Attempt String → Attempt (String × String) → Attempt Bool → Services
  checked hashed proved validated = record {
    recompute_hash = hashed;
    get_proof = proved;
    verify_signature = λ hash signature. returned (check_signature hash signature);
    validate_chain = validated;
  }

  -- The answer of the steps when all four calls come through, with a good signature and chain.
  abbrev pub good_out : String → String → String → String → VerificationOut
  good_out artifact_id hash current now = record {
    artifact_id = artifact_id;
    verification_result = if current == hash then "VALID" else "TAMPERED";
    original_hash = hash;
    current_hash = current;
    signature_valid = true;
    ledger_chain_valid = true;
    verified_at = now;
  }

  steps-good :
      (artifact_id hash signature current now : String)
      → check_signature hash signature ≡ true
      → steps
          (checked (returned current) (returned (hash, signature)) (returned true))
          artifact_id
          now
        ≡ answered (good_out artifact_id hash current now)
  unfolding steps checked or_raise and_then verdict
  steps-good artifact_id hash signature current now good =
      rw good (elim (Bool-cases (current == hash)) [ inl t ↦ rw t refl | inr f ↦ rw f refl ])

  -- The steps with a ledger whose chain is found valid and that gives this hash and signature.
  pub steps-proved :
      (ledger : LedgerDb) (artifact_id case_id hash signature current now : String)
      → get_proof_by_artifact (returned (Ledger.get_proof_by_artifact_id x none ledger artifact_id))
        ≡ returned (hash, signature)
      → (Ledger.validate_ledger_chain x none ledger case_id).chain_valid ≡ true
      → check_signature hash signature ≡ true
      → steps (ledger_services ledger artifact_id case_id current) artifact_id now
        ≡ answered (good_out artifact_id hash current now)
  unfolding ledger_services checked validate_ledger_chain
  steps-proved ledger artifact_id case_id hash signature current now proved valid good =
      let verdict = (Ledger.validate_ledger_chain x none ledger case_id).chain_valid in
      ap (λ p. steps (checked (returned current) p (returned verdict)) artifact_id now) proved
      ∙ ap
          (λ v.
            steps (checked (returned current) (returned (hash, signature)) (returned v)) artifact_id
              now)
          valid
      ∙ steps-good artifact_id hash signature current now good

  -- After a proof of evidence was appended, with success and later than every record, to a ledger
  -- whose case is in order and not blank, the verification of a file of the artifact is VALID for the
  -- hash of the proof and TAMPERED for any other, as long as the signature of the proof is good.
  pub steps-append :
      (s : Surroundings) (db : LedgerDb) (q : ProofRecordRequest) (current now : String)
      → (append_proof_record x s db q).1.success ≡ true
      → q.record_type ≡ "EVIDENCE_PROOF_CREATED"
      → IsBefore x s.now db.records
      → is_truthy (strip q.case_id) ≡ true
      → IsKept x (strip q.case_id) db
      → check_signature q.hash_value q.signature_value ≡ true
      → let ledger = (append_proof_record x s db q).0 in
        steps (ledger_services ledger q.artifact_id q.case_id current) q.artifact_id now
        ≡ answered (good_out q.artifact_id q.hash_value current now)
  unfolding append_proof_record
  steps-append s db q current now ok kind early present kept good =
      let ledger = (append_proof_record x s db q).0 in
      steps-proved ledger q.artifact_id q.case_id q.hash_value q.signature_value current now
        (get_proof-Carries q (Ledger.get_proof_by_artifact_id x none ledger q.artifact_id)
          (get_proof-append x s db q ok kind early))
        (IsKept-chain_valid x q.case_id ledger present
          (append_record-IsKept x (strip q.case_id) s db (proof_entry q) early kept))
        good
