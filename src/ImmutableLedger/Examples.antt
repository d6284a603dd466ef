-- ===== src/ImmutableLedger/Examples.antt =====
-- Runs of the ledger with small stand-ins for the hash and the serialization, and each theorem at a
-- concrete input.
use Prim.Native.String.{count}
use text.Mathlib.TextLemmas.{length-cons}
use forensic_chain.Common.{
  if◌then◌else◌, ◌==◌, ℕ, String, false, none, some, List, [], ◌∷◌, length, map, ◌≡◌, refl, ◌⊎◌,
  arith, filter, sort_by, insert_by, lookup, insert, contains, Holds, All,
}
use forensic_chain.Python.{and_then, raised, returned, strip, AssignmentsFetch, assigned_of}
use forensic_chain.ImmutableLedger.Hashing.{
  Payload, Externals, compute_payload_hash, compute_record_hash, data_to_hash,
  create_hash_chain_entry,
}
use forensic_chain.ImmutableLedger.Records.{
  LedgerRecord, ProofRecordRequest, VerificationRecordRequest, in_case, earlier, records_of,
}
use forensic_chain.ImmutableLedger.Appending.{
  Surroundings, Entry, head_of, ensure_state, proof_entry, verification_entry, new_record, commit,
  insert_record, appended, failed_append, append_record,
}
use forensic_chain.ImmutableLedger.Validation.{
  record_error, validate_loop, validate_ledger_chain, valid,
}
use forensic_chain.ImmutableLedger.Chain.{Verdict, validate_loop-Verdict}
use forensic_chain.ImmutableLedger.Refinement.{
  log, run, IsTicking, empty_db, run_refines, validate_ledger_chain-run,
}
use forensic_chain.ImmutableLedger.Tampering.{Collision, payload_text, validated_unique}
use forensic_chain.ImmutableLedger.Access.{
  Caller, RecordOut, require_ledger_access, get_ledger_records, read_rows, row_out,
  get_ledger_records_guarded,
}

-- A text of 64 characters that keeps the first of `s`.
abbrev pub toy_sha256 : String → String
toy_sha256 String.[] = "0000000000000000000000000000000000000000000000000000000000000000"
toy_sha256 (String.◌∷◌ c s) =
    String.◌∷◌ c "000000000000000000000000000000000000000000000000000000000000000"

toy_sha256_length : (s : String) → count (toy_sha256 s) ≡ 64
toy_sha256_length String.[] = refl
toy_sha256_length (String.◌∷◌ c s) =
    omega (arith, length-cons c "000000000000000000000000000000000000000000000000000000000000000")

abbrev pub toy_dumps : Payload → String
toy_dumps [] = ""
toy_dumps ((k, v) ∷ p) = v

abbrev pub toy : Externals
toy = record {
  sha256 = toy_sha256;
  dumps = toy_dumps;
  parse_uuid =
      λ s. if s == "" then raised "badly formed hexadecimal UUID string" else returned (count s);
  show_uuid = λ n. "id";
  iso_format = λ n. "time";
}

abbrev proof_request : ProofRecordRequest
proof_request = record {
  artifact_id = "a1";
  case_id = "CASE-2024-001";
  record_type = "EVIDENCE_PROOF_CREATED";
  hash_algorithm = "SHA-256";
  hash_value = "beef";
  signature_algorithm = "RSA";
  signature_value = "c2ln";
  signer_id = "key-1";
  created_at = "2024-05-01";
}

abbrev verification_request : VerificationRecordRequest
verification_request = record {
  artifact_id = "b22";
  case_id = "CASE-2024-001";
  record_type = "VERIFICATION_RESULT_RECORDED";
  verification_result = "VALID";
  original_hash = "beef";
  current_hash = "beef";
  verified_by = "ana";
  verified_at = "2024-05-02";
}

abbrev pub at_time : ℕ → Surroundings
at_time t = record { record_id = t; now = t; early_fault = none; late_fault = none }

-- Two records, and between them a call that the database refuses.
abbrev calls : List (Surroundings × Entry)
calls =
    (at_time 1, proof_entry proof_request)
    ∷ (record (at_time 2) { late_fault = some "lost" }, proof_entry proof_request)
    ∷ (at_time 3, verification_entry verification_request)
    ∷ []

two_records : List LedgerRecord
unfolding run append_record insert_record failed_append appended commit new_record ensure_state
    head_of records_of in_case earlier sort_by insert_by filter lookup insert proof_entry
    verification_entry create_hash_chain_entry compute_payload_hash compute_record_hash data_to_hash
two_records = records_of "CASE-2024-001" (run toy (empty_db toy) calls)

run_found_valid : validate_loop toy none 0 two_records ≡ valid 2
unfolding two_records validate_loop record_error
run_found_valid = refl

-- The chain is as the calls left it, and the clock went back by one between the two.
clock_went_back :
    (validate_ledger_chain toy none
      (run toy
        (empty_db toy)
        ((at_time 3, proof_entry proof_request) ∷ (at_time 2, proof_entry proof_request) ∷ []))
      "CASE-2024-001").chain_valid
    ≡ false
unfolding run append_record insert_record failed_append appended commit new_record ensure_state
    head_of records_of in_case earlier sort_by insert_by filter lookup insert proof_entry
    verification_entry create_hash_chain_entry compute_payload_hash compute_record_hash data_to_hash
    validate_ledger_chain validate_loop record_error strip
clock_went_back = refl

ticking : IsTicking toy 0 calls
ticking = (omega arith, (omega arith, (omega arith, tt)))

run_refines_example :
    map (λ r. r.raw_payload) (records_of "CASE-2024-001" (run toy (empty_db toy) calls))
    ≡ log toy "CASE-2024-001" calls
run_refines_example = run_refines toy "CASE-2024-001" calls ticking

validate_ledger_chain-run_example :
    validate_ledger_chain toy none (run toy (empty_db toy) calls) " CASE-2024-001"
    ≡ valid (length (log toy (strip " CASE-2024-001") calls))
unfolding strip
validate_ledger_chain-run_example =
    validate_ledger_chain-run toy " CASE-2024-001" calls ticking refl

-- The first record with another payload.
abbrev forge : List LedgerRecord → List LedgerRecord
forge [] = []
forge (r ∷ rs) = record r { raw_payload = ("artifact_id", "a2") ∷ [] } ∷ rs

-- The digest of the stand-in is the same for both payloads.
validated_unique_example :
    (map (payload_text toy) two_records ≡ map (payload_text toy) (forge two_records))
    ⊎ Collision toy two_records (forge two_records)
unfolding two_records validate_loop record_error compute_payload_hash compute_record_hash
    data_to_hash
validated_unique_example =
    validated_unique toy toy_sha256_length two_records (forge two_records) refl refl refl

validate_loop-Verdict_example :
    Verdict toy none 0 two_records (validate_loop toy none 0 two_records)
validate_loop-Verdict_example = validate_loop-Verdict toy none 0 two_records

abbrev reviewer : Caller
reviewer = record { user_role = "legal_reviewer"; user_id = "lea" }

abbrev lea_only : String → AssignmentsFetch
lea_only user = returned (200, returned ("CASE-2024-001" ∷ []))

abbrev read : List RecordOut
read = map (row_out toy lea_only) two_records

get_ledger_records_guarded_example :
    (reviewer.user_role ≡ "legal_reviewer")
    × Holds "CASE-2024-001" (assigned_of (lea_only "lea"))
    × All (λ r. r.case_id ≡ "CASE-2024-001") read
unfolding get_ledger_records require_ledger_access read_rows assigned_of contains two_records
    and_then
get_ledger_records_guarded_example =
    get_ledger_records_guarded toy lea_only reviewer none (run toy (empty_db toy) calls)
      "CASE-2024-001" read refl
