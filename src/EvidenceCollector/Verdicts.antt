-- ===== src/EvidenceCollector/Verdicts.antt =====
-- What a verification says, and which events it leaves.
use forensic_chain.Common.{
  ℕ, String, Bool, true, false, none, List, [], ◌∷◌, ◌≡◌, refl, ◌↔◌, inl, inr, arith, eq_iff,
  Bool-cases, Option-cases, ne_of_test, ◌==◌,
}
use forensic_chain.Python.{
  Attempt, returned, raised, Answer, answered, http_error, Gives, Gives-value, Gives-error,
  Gives-answered, and_then-Gives, AssignmentsFetch,
}
use forensic_chain.EvidenceCollector.Records.{Artifact, OutboxEvent, EvidenceDb, Caller}
use forensic_chain.EvidenceCollector.Access.{find_artifact, require_reader}
use forensic_chain.EvidenceCollector.Outbox.{verification_event}
use forensic_chain.EvidenceCollector.Verify.{
  Services, VerificationOut, Faults, verdict, or_raise, steps, verify_found, verify_checked,
  verify_in, verify_evidence,
}

verdict_iff :
    (chain sig : Bool) (current original : String)
    → (verdict chain sig current original ≡ "VALID")
      ↔ ((chain ≡ true) × (sig ≡ true) × (current ≡ original))
unfolding verdict
verdict_iff false sig current original =
    (λ e. absurd (ne_of_test "LEDGER_CORRUPTED" "VALID" refl e), λ h. cc (h.0))
verdict_iff true false current original =
    (λ e. absurd (ne_of_test "INVALID_SIGNATURE" "VALID" refl e), λ h. cc (h.1))
verdict_iff true true current original = elim (Bool-cases (current == original)) [
  | inl t ↦ rw t ((λ _. (refl, refl, (eq_iff current original).0 t)), (λ _. refl))
  | inr f ↦ rw f (
    (λ e. absurd (ne_of_test "TAMPERED" "VALID" refl e)),
    (λ h. absurd (ne_of_test current original f h.2)),
  )
]

or_raise-answered :
    {A : Type 0} (status : ℕ) (detail : String) (m : Attempt A) (a : A)
    → or_raise status detail m ≡ answered a
    → m ≡ returned a
unfolding or_raise
or_raise-answered status detail (returned b) a e = ground (arith, e)
or_raise-answered status detail (raised error) a e = cc

-- A verification that is answered tells what the four calls gave, and is valid exactly when the
-- chain and the signature are and the two hashes are one.
abbrev pub IsFaithful : Services → VerificationOut → Type 0
IsFaithful s out =
    (signature : String) × (s.recompute_hash ≡ returned out.current_hash)
    × (s.get_proof ≡ returned (out.original_hash, signature))
    × (s.verify_signature out.original_hash signature ≡ returned out.signature_valid)
    × (s.validate_chain ≡ returned out.ledger_chain_valid)
    × ((out.verification_result ≡ "VALID") ↔ (
        (out.ledger_chain_valid ≡ true)
        × (out.signature_valid ≡ true)
        × (out.current_hash ≡ out.original_hash)))

-- The event that follows the answer of the steps.
abbrev pub result_events : Caller → String → Answer VerificationOut → List OutboxEvent
result_events c case_id (http_error status detail) = []
result_events c case_id (answered out) =
    verification_event c out.artifact_id case_id out.verification_result ∷ []

abbrev pub no_faults : Faults
no_faults = record { requested = none; temp_file = none; result = none }

module _ (s : Services) where
  steps-IsFaithful : (artifact_id now : String) → Gives (IsFaithful s) (steps s artifact_id now)
  unfolding steps
  steps-IsFaithful artifact_id now = and_then-Gives _ _ _ (λ current hashed.
      and_then-Gives _ _ _ (λ (original, signature) proved. and_then-Gives _ _ _ (λ sig signed.
        and_then-Gives _ _ _ (λ chain validated. Gives-value (IsFaithful s) _ (
          signature,
          or_raise-answered _ _ _ _ hashed,
          or_raise-answered _ _ _ _ proved,
          or_raise-answered _ _ _ _ signed,
          or_raise-answered _ _ _ _ validated,
          verdict_iff chain sig current original,
        )))))

  verify_found-IsFaithful :
      (f : Faults) (c : Caller) (db : EvidenceDb) (artifact_id now : String) (a : Artifact)
      → Gives (IsFaithful s) (verify_found s f c db artifact_id now a).1
  unfolding verify_found
  verify_found-IsFaithful f c db artifact_id now a = elim (Option-cases f.temp_file) [
    | inl ok ↦ rw (verify_found, ok) (steps-IsFaithful artifact_id now)
    | inr (m, bad) ↦ rw (verify_found, bad) (Gives-error (IsFaithful s) 500 "Internal Server Error")
  ]

  verify_checked-IsFaithful :
      (f : Faults) (c : Caller) (db : EvidenceDb) (artifact_id now : String) (a : Artifact)
      (passed : Answer Unit)
      → Gives (IsFaithful s) (verify_checked s f c db artifact_id now a passed).1
  unfolding verify_checked
  verify_checked-IsFaithful f c db artifact_id now a (answered u) =
      verify_found-IsFaithful f c db artifact_id now a
  verify_checked-IsFaithful f c db artifact_id now a (http_error status detail) =
      Gives-error (IsFaithful s) status detail

  verify_in-IsFaithful :
      (auth : String → AssignmentsFetch) (f : Faults) (c : Caller) (db : EvidenceDb)
      (artifact_id now : String) (found : Answer Artifact)
      → Gives (IsFaithful s) (verify_in auth s f c db artifact_id now found).1
  unfolding verify_in
  verify_in-IsFaithful auth f c db artifact_id now (answered a) =
      verify_checked-IsFaithful f c db artifact_id now a (require_reader auth c a)
  verify_in-IsFaithful auth f c db artifact_id now (http_error status detail) =
      Gives-error (IsFaithful s) status detail

  -- Whoever asks and whatever fails: a verification that is answered tells what the four calls gave,
  -- and says VALID exactly when the chain and the signature are valid and the hash of the file is
  -- that of the proof.
  pub verify_evidence-IsFaithful :
      (auth : String → AssignmentsFetch) (f : Faults) (c : Caller) (db : EvidenceDb)
      (artifact_id : String) (parsed : Attempt ℕ) (now : String) (out : VerificationOut)
      → (verify_evidence auth s f c db artifact_id parsed now).1 ≡ answered out
      → IsFaithful s out
  unfolding verify_evidence
  verify_evidence-IsFaithful auth f c db artifact_id parsed now out =
      Gives-answered (IsFaithful s) _ out
        (verify_in-IsFaithful auth f c db artifact_id now (find_artifact db parsed))
