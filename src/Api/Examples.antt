-- ===== src/Api/Examples.antt =====
-- Records of the server to try the theorems on, and a request.
use forensic_chain.Common.{String, Bool, true, Option, none, some, [], ◌∷◌, ◌≡◌, refl}
use forensic_chain.Api.{
  Artifact, Case, LedgerRecord, LedgerValidation, Report, ReportVerification, VerificationResult,
}
use forensic_chain.Api.Endpoints

abbrev pub artifact_of : String → String → Artifact
artifact_of id file_name = record {
  artifact_id = id;
  case_id = "CASE-2026-001";
  file_name = file_name;
  file_size = 2048;
  artifact_type = "DiskImage";
  description = none;
  hash_algorithm = none;
  hash_value = none;
  signature_value = none;
  ledger_record_id = none;
  uploaded_by = none;
  status = "INGESTED";
  uploaded_at = none;
}

abbrev pub case_of : String → Case
case_of number = record {
  id = number;
  case_number = number;
  title = "Theft";
  description = none;
  status = "OPEN";
  created_at = "2026-01-01";
  created_by = "admin";
}

abbrev pub record_of : String → String → Option String → LedgerRecord
record_of id case_id previous = record {
  record_id = id;
  artifact_id = "a1";
  case_id = case_id;
  record_type = "EVIDENCE_PROOF_CREATED";
  hash_algorithm = none;
  hash_value = none;
  payload_hash = "p";
  previous_record_hash = previous;
  record_hash = "h";
  created_at = "2026-01-01";
}

abbrev pub validation_of : String → Bool → LedgerValidation
validation_of case_id valid = record {
  case_id = case_id;
  chain_valid = valid;
  checked_records = 1;
  error_message = "";
}

abbrev pub report_of : String → Report
report_of id = record {
  report_id = id;
  artifact_id = "a1";
  case_id = none;
  report_hash = "h";
  format = "PDF";
  generated_at = "2026-01-01";
  generated_by = "reviewer";
  storage_path = none;
}

abbrev pub verdict_on : String → Bool → ReportVerification
verdict_on id valid = record {
  report_id = id;
  report_valid = valid;
  stored_hash = "h";
  current_hash = "h";
  verified_at = "2026-01-02";
}

abbrev pub verification_of : String → VerificationResult
verification_of result = record {
  artifact_id = "a1";
  verification_result = result;
  original_hash = "h";
  current_hash = "h";
  signature_valid = true;
  ledger_chain_valid = true;
  verified_at = "2026-01-02";
}

case_in_params : (Endpoints.list_artifacts (some "C1")).params ≡ ("case_id", "C1") ∷ []
case_in_params = refl
