-- ===== src/ImmutableLedger/Access.antt =====
-- services/immutable-ledger/main.py: the REST routes over the service, and who may call them.
use forensic_chain.Common.{
  String, true, Option, none, some, List, map, if◌then◌else◌, not, ◌==◌, is_truthy, contains,
  contains_iff, Holds, All, ◌≡◌, refl, ◌∙◌, subst, inl, inr, arith, eq_iff, Bool-cases, filter,
  All-sort_by, All-imp, All-filter_test, All-map,
}
use forensic_chain.Python.{
  Answer, answered, http_error, uncaught, and_then, and_then-answered, AssignmentsFetch,
  assigned_of,
}
use forensic_chain.ImmutableLedger.Hashing.{Externals}
use forensic_chain.ImmutableLedger.Records.{
  LedgerRecord, LedgerDb, ArtifactIntegrityProofResponse, ValidateLedgerResponse, in_case, earlier,
  records_of,
}
use forensic_chain.ImmutableLedger.Validation.{validate_ledger_chain, get_proof_by_artifact_id}

-- The headers that the gateway adds; "" for one that is missing.
pub record Caller : Type 0 where
  pub user_role : String
  pub user_id : String

-- An entry of `GET /ledger/records/{case_id}`.
pub record RecordOut : Type 0 where
  pub record_id : String
  pub artifact_id : String
  pub case_id : String
  pub record_type : String
  pub hash_algorithm : Option String
  pub hash_value : Option String
  pub payload_hash : String
  pub previous_record_hash : Option String
  pub record_hash : String
  pub created_at : String

-- `auth` is the answer of `GET /internal/assignments/by-user/{actor_id}`.
module _ (x : Externals) (auth : String → AssignmentsFetch) where
  unfoldable pub require_ledger_access : Caller → String → Answer Unit
  require_ledger_access caller case_id =
      if not (caller.user_role == "legal_reviewer")
      then http_error 403 "Forbidden: legal_reviewer role required"
      else if not (contains (assigned_of (auth caller.user_id)) case_id)
      then http_error 403 "Not assigned to this case"
      else answered tt

  unfoldable pub row_out : LedgerRecord → RecordOut
  row_out r = record {
    record_id = x.show_uuid r.record_id;
    artifact_id = x.show_uuid r.artifact_id;
    case_id = r.case_id;
    record_type = r.record_type;
    hash_algorithm = r.proof.hash_algorithm;
    hash_value = r.proof.hash_value;
    payload_hash = r.payload_hash;
    previous_record_hash = r.previous_record_hash;
    record_hash = r.record_hash;
    created_at = x.iso_format r.created_at;
  }

  -- The fault is the exception of the database, if any.
  unfoldable pub read_rows : Option String → LedgerDb → String → Answer (List RecordOut)
  read_rows (some message) db case_id = uncaught
  read_rows none db case_id = answered (map row_out (records_of case_id db))

  unfoldable pub get_ledger_records :
      Caller → Option String → LedgerDb → String → Answer (List RecordOut)
  get_ledger_records caller fault db case_id =
      and_then (require_ledger_access caller case_id) (λ _. read_rows fault db case_id)

  unfoldable pub validate_ledger :
      Caller → Option String → LedgerDb → String → Answer ValidateLedgerResponse
  validate_ledger caller fault db case_id =
      and_then (require_ledger_access caller case_id)
        (λ _. answered (validate_ledger_chain x fault db case_id))

  -- A call without a role header comes from a service, and is let through.
  unfoldable pub get_proof_by_artifact :
      Caller → Option String → LedgerDb → String → Answer ArtifactIntegrityProofResponse
  get_proof_by_artifact caller fault db artifact_id =
      let resp = get_proof_by_artifact_id x fault db artifact_id in
      if not resp.success
      then http_error 404 resp.error_message
      else if is_truthy caller.user_role
      then and_then (require_ledger_access caller resp.case_id) (λ _. answered resp)
      else answered resp

  -- Only a legal reviewer who is assigned to the case passes.
  pub require_ledger_access-answered :
      (caller : Caller) (case_id : String) (u : Unit)
      → require_ledger_access caller case_id ≡ answered u
      → (caller.user_role ≡ "legal_reviewer") × Holds case_id (assigned_of (auth caller.user_id))
  unfolding require_ledger_access
  require_ledger_access-answered caller case_id u e =
      elim (Bool-cases (caller.user_role == "legal_reviewer")) [
        | inr f ↦ absurd (ground (arith, e, f))
        | inl role ↦ elim (Bool-cases (contains (assigned_of (auth caller.user_id)) case_id)) [
          | inr f ↦ absurd (ground (arith, e, f, role))
          | inl held ↦ (
            (eq_iff caller.user_role "legal_reviewer").0 role,
            (contains_iff (assigned_of (auth caller.user_id)) case_id).0 held,
          )
        ]
      ]

  All-records_of : (c : String) (db : LedgerDb) → All (λ r. r.case_id ≡ c) (records_of c db)
  unfolding records_of in_case
  All-records_of c db =
      All-sort_by earlier (λ r. r.case_id ≡ c) (filter (in_case c) db.records)
        (All-imp (λ r. in_case c r ≡ true) (λ r. r.case_id ≡ c) (λ r. (eq_iff r.case_id c).0)
          (filter (in_case c) db.records) (All-filter_test (in_case c) db.records))

  All-row_out :
      (c : String) (fault : Option String) (db : LedgerDb) (rows : List RecordOut)
      → read_rows fault db c ≡ answered rows
      → All (λ r. r.case_id ≡ c) rows
  unfolding read_rows row_out
  All-row_out c (some message) db rows e = cc
  All-row_out c none db rows e =
      subst (All (λ r. r.case_id ≡ c)) (ground (arith, e))
        (All-map (λ r. r.case_id ≡ c) row_out (records_of c db) (All-records_of c db))

  -- The rows of a case go only to a legal reviewer who is assigned to it, and are of that case.
  pub get_ledger_records_guarded :
      (caller : Caller) (fault : Option String) (db : LedgerDb) (case_id : String)
      (rows : List RecordOut)
      → get_ledger_records caller fault db case_id ≡ answered rows
      → (caller.user_role ≡ "legal_reviewer")
        × Holds case_id (assigned_of (auth caller.user_id))
        × All (λ r. r.case_id ≡ case_id) rows
  unfolding get_ledger_records
  get_ledger_records_guarded caller fault db case_id rows e =
      let (u, passed, read) = and_then-answered _ _ rows e in
      let (role, assigned) = require_ledger_access-answered caller case_id u passed in
      (role, assigned, All-row_out case_id fault db rows read)

  -- A proof goes to a caller with a role only if he is a legal reviewer who is assigned to its case.
  pub get_proof_by_artifact_guarded :
      (caller : Caller) (fault : Option String) (db : LedgerDb) (artifact_id : String)
      (found : ArtifactIntegrityProofResponse)
      → is_truthy caller.user_role ≡ true
      → get_proof_by_artifact caller fault db artifact_id ≡ answered found
      → (caller.user_role ≡ "legal_reviewer")
        × Holds found.case_id (assigned_of (auth caller.user_id))
  unfolding get_proof_by_artifact
  get_proof_by_artifact_guarded caller fault db artifact_id found present e =
      let resp = get_proof_by_artifact_id x fault db artifact_id in
      elim (Bool-cases resp.success) [
        | inr f ↦ absurd (ground (arith, e, f))
        | inl ok ↦
            let granted =
              and_then (require_ledger_access caller resp.case_id) (λ _. answered resp) in
            let e' : granted ≡ answered found = rw (ok, present) refl ∙ e in
            let (u, passed, same) = and_then-answered _ _ found e' in
            let (role, held) = require_ledger_access-answered caller resp.case_id u passed in
            let kept : resp ≡ found = ground (arith, same) in
            (role, subst (λ f. Holds f.case_id (assigned_of (auth caller.user_id))) kept held)
      ]
