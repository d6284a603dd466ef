-- ===== src/EvidenceCollector/Examples.antt =====
-- Runs of the evidence collector, and each theorem at a concrete input.
use forensic_chain.Common.{
  String, true, none, some, [], ◌∷◌, ◌≡◌, refl, ◌↔◌, inl, arith, find, Holds, List, All, length,
  ◌++◌, if◌then◌else◌, ◌==◌,
}
use forensic_chain.Python.{returned, raised, answered, and_then, AssignmentsFetch, strip}
use forensic_chain.ImmutableLedger.Appending.{
  append_record, append_proof_record, insert_record, appended, proof_entry,
}
use forensic_chain.ImmutableLedger.Examples.{toy, at_time}
use forensic_chain.ImmutableLedger.Records.{LedgerDb, ProofColumns}
use forensic_chain.ImmutableLedger.Refinement.{empty_db, empty_db-IsKept}
use forensic_chain.EvidenceCollector.Records.{Artifact, OutboxEvent, EvidenceDb, Caller}
use forensic_chain.EvidenceCollector.Access.{
  find_artifact, found, query, require_viewer, require_reader,
}
use forensic_chain.EvidenceCollector.Visibility.{viewable-eq-listed}
use forensic_chain.EvidenceCollector.Outbox.{Turn, poll, outbox_event, requested_event}
use forensic_chain.EvidenceCollector.Draining.{
  Exchange, IsWaiting, completed, waiting, poll_drains, poll_blocked,
}
use forensic_chain.EvidenceCollector.Upload.{
  UploadForm, Surroundings, Store, saved, upload_evidence,
}
use forensic_chain.EvidenceCollector.Ingestion.{Outcome, upload_evidence-Settles}
use forensic_chain.EvidenceCollector.Verify.{
  Services, VerificationOut, verify_evidence, verify_in, verify_checked, verify_found, steps,
  or_raise, verdict,
}
use forensic_chain.EvidenceCollector.Verdicts.{IsFaithful, no_faults, verify_evidence-IsFaithful}
use forensic_chain.EvidenceCollector.Integrity.{
  proof_request, ledger_services, good_out, steps-append,
}

abbrev ana : Caller
ana = record { user_id = "ana"; user_role = "investigator" }

abbrev on_one_case : String → AssignmentsFetch
on_one_case user = returned (200, returned ("CASE-2024-001" ∷ []))

abbrev disk : Artifact
disk = record {
  artifact_id = 7;
  case_id = "CASE-2024-001";
  file_name = "d.img";
  file_size = 5;
  artifact_type = "disk_image";
  storage_path = "/evidence-storage/seven/original.bin";
  description = none;
  uploaded_by = "ana";
  uploaded_at = 3;
  status = "INGESTED";
  hash_value = some "beef";
  hash_algorithm = some "SHA-256";
  signature_value = some "c2ln";
  ledger_record_id = some 9;
}

abbrev db : EvidenceDb
db = record { artifacts = disk ∷ []; outbox = [] }

viewable-eq-listed_example :
    (require_viewer on_one_case ana disk ≡ answered tt) ↔ Holds disk (query on_one_case ana none db)
viewable-eq-listed_example = viewable-eq-listed on_one_case ana db disk refl (inl refl)

-- All four calls come through, and the file has another hash.
abbrev services : Services
services = record {
  recompute_hash = returned "dead";
  get_proof = returned ("beef", "c2ln");
  verify_signature = λ h g. returned true;
  validate_chain = returned true;
}

abbrev tampered : VerificationOut
tampered = record {
  artifact_id = "seven";
  verification_result = "TAMPERED";
  original_hash = "beef";
  current_hash = "dead";
  signature_valid = true;
  ledger_chain_valid = true;
  verified_at = "now";
}

verify_evidence-IsFaithful_example : IsFaithful services tampered
unfolding verify_evidence find_artifact found find verify_in require_reader verify_checked
    verify_found steps or_raise and_then verdict
verify_evidence-IsFaithful_example =
    verify_evidence-IsFaithful services on_one_case no_faults ana db "seven" (returned 7) "now"
      tampered refl

abbrev waits : OutboxEvent
waits = requested_event ana "seven" "CASE-2024-001"

-- The first turn is rolled back.
abbrev turns : List Turn
turns = ((λ e. none), some "connection lost") ∷ ((λ e. none), none) ∷ []

poll_drains_example : waiting (poll turns (waits ∷ waits ∷ [])) ≡ 0
unfolding requested_event outbox_event completed
poll_drains_example =
    poll_drains turns (waits ∷ waits ∷ []) ((λ e. refl), ((λ e. refl), tt)) (omega arith)

abbrev ten : List OutboxEvent
ten = waits ∷ waits ∷ waits ∷ waits ∷ waits ∷ waits ∷ waits ∷ waits ∷ waits ∷ waits ∷ []

abbrev other : OutboxEvent
other = outbox_event ana "seven" "CASE-2024-001" "EvidenceViewed" "forensicchain.evidence.viewed" ""

-- An exchange that refuses the events of one key.
abbrev refuses_requests : Exchange
refuses_requests e =
    if e.routing_key == "forensicchain.verification.requested" then some "no route" else none

poll_blocked_example :
    (retried : List OutboxEvent) × All (IsWaiting "forensicchain.verification.requested") retried
    × (length retried ≡ 10)
    × (poll ((refuses_requests, none) ∷ []) (ten ++ other ∷ []) ≡ retried ++ other ∷ [])
unfolding requested_event outbox_event
poll_blocked_example =
    poll_blocked "forensicchain.verification.requested" ((refuses_requests, none) ∷ []) ten
      (other ∷ []) ((λ e same. ("no route", rw same refl)), tt)
      (w, (w, (w, (w, (w, (w, (w, (w, (w, (w, tt)))))))))) refl
  where
    w : IsWaiting "forensicchain.verification.requested" waits
    w = (refl, refl)

abbrev form : UploadForm
form = record {
  case_id = "CASE-2024-001";
  title = "Image";
  artifact_type = "disk_image";
  description = none;
  file_name = "d.img";
  file_size = 5;
}

-- The ledger is down after the file was signed.
abbrev ledger_down : Surroundings
ledger_down = record {
  artifact_id = 8;
  artifact_text = "eight";
  storage_path = "/evidence-storage/eight/original.bin";
  uploaded_at = 6;
  makedirs_fault = none;
  write_fault = none;
  save = saved;
  sign =
      returned
        (record { hash_value = "f00d"; hash_algorithm = "SHA-256"; signature_value = "c2ln" });
  append_proof = raised "gRPC Error: down";
  finish = saved;
  record_id = 3;
  mark_fault = none;
}

abbrev store : Store
store = record { db = db; files = "/evidence-storage/seven/original.bin" ∷ [] }

upload_evidence-Settles_example :
    Outcome ana form ledger_down store (upload_evidence on_one_case ana form ledger_down store)
upload_evidence-Settles_example =
    upload_evidence-Settles ana form ledger_down on_one_case store
      (inl (refl, ("beef", refl), ("c2ln", refl), (9, refl)), tt)

abbrev ledger : LedgerDb
ledger =
    (append_proof_record toy (at_time 4) (empty_db toy)
      (proof_request "a1" "CASE-2024-001" "beef" "c2ln" "2024-05-01")).0

steps-append_example :
    steps (ledger_services toy (λ h g. true) ledger "a1" "CASE-2024-001" "dead") "a1" "now"
    ≡ answered (good_out toy (λ h g. true) "a1" "beef" "dead" "now")
unfolding append_proof_record append_record insert_record appended proof_entry proof_request strip
steps-append_example =
    steps-append toy (λ h g. true) (at_time 4) (empty_db toy)
      (proof_request "a1" "CASE-2024-001" "beef" "c2ln" "2024-05-01") "dead" "now" refl refl tt refl
      (empty_db-IsKept toy (strip "CASE-2024-001")) refl

-- The hash and the signature of another artifact, in the table of the ledger.
abbrev copied : ProofColumns
copied = record {
  hash_algorithm = some "SHA-256";
  hash_value = some "f00d";
  signature_algorithm = some "RSA-SHA256";
  signature_value = some "b3Ro";
  signer_id = some "hash-sign-service";
}
