-- ===== src/EvidenceCollector/Access.antt =====
-- services/evidence-collector/routers/evidence.py: who may list, read, verify and download.
use forensic_chain.Common.{
  ℕ, String, Bool, true, Option, none, some, List, map, if◌then◌else◌, not, ◌&&◌, ◌||◌, ◌==◌, ltb,
  is_present, or_else, contains, filter, find, eqb, sort_by,
}
use forensic_chain.Python.{
  Attempt, returned, raised, Answer, answered, http_error, AssignmentsFetch, assigned_of,
}
use forensic_chain.EvidenceCollector.Records.{Artifact, EvidenceDb, Caller}

-- An entry of the list, and the body of `GET /evidence/{artifact_id}`.
pub record ArtifactOut : Type 0 where
  pub artifact_id : ℕ
  pub case_id : String
  pub file_name : String
  pub file_size : ℕ
  pub artifact_type : String
  pub description : Option String
  pub hash_algorithm : Option String
  pub hash_value : Option String
  pub signature_value : Option String
  pub ledger_record_id : Option ℕ
  pub uploaded_by : String
  pub status : String
  pub uploaded_at : ℕ

unfoldable pub artifact_out : Artifact → ArtifactOut
artifact_out a = record {
  artifact_id = a.artifact_id;
  case_id = a.case_id;
  file_name = a.file_name;
  file_size = a.file_size;
  artifact_type = a.artifact_type;
  description = a.description;
  hash_algorithm = a.hash_algorithm;
  hash_value = a.hash_value;
  signature_value = a.signature_value;
  ledger_record_id = a.ledger_record_id;
  uploaded_by = a.uploaded_by;
  status = a.status;
  uploaded_at = a.uploaded_at;
}

-- The entry of the list, which hides two fields from a legal reviewer.
unfoldable pub listed_out : String → Artifact → ArtifactOut
listed_out role a =
    if role == "legal_reviewer"
    then record (artifact_out a) { hash_value = none; signature_value = none }
    else artifact_out a

-- `ORDER BY uploaded_at DESC`
unfoldable pub newer : Artifact → Artifact → Bool
newer a b = ltb b.uploaded_at a.uploaded_at

unfoldable pub is_case_reader : String → Bool
is_case_reader role = role == "forensic_analyst" || role == "legal_reviewer"

-- `uuid.UUID(artifact_id)`, and the query for the row.
unfoldable pub found : Option Artifact → Answer Artifact
found none = http_error 404 "Artifact not found"
found (some a) = answered a

unfoldable pub find_artifact : EvidenceDb → Attempt ℕ → Answer Artifact
unfolding found
find_artifact db (raised message) = http_error 400 "Invalid artifact ID format"
find_artifact db (returned id) = found (find (λ a. eqb a.artifact_id id) db.artifacts)

-- `if case_id: query.filter(…)`
unfoldable pub is_asked : Option String → Artifact → Bool
is_asked case_id a = not (is_present case_id) || a.case_id == or_else case_id ""

module _ (auth : String → AssignmentsFetch) where
  -- The filters of the query of `list_evidence` by role.
  unfoldable pub is_visible : Caller → Artifact → Bool
  is_visible c a =
      if c.user_role == "investigator"
      then a.uploaded_by == c.user_id
      else if is_case_reader c.user_role
      then contains (assigned_of (auth c.user_id)) a.case_id
      else true

  -- The artifacts that the query finds. An analyst without a case gets the empty list at once, which
  -- is what the filter leaves.
  unfoldable pub query : Caller → Option String → EvidenceDb → List Artifact
  query c case_id db =
      sort_by newer (filter (is_asked case_id) (filter (is_visible c) db.artifacts))

  unfoldable pub list_evidence : Caller → Option String → EvidenceDb → Answer (List ArtifactOut)
  list_evidence c case_id db =
      if c.user_role == "admin"
      then http_error 403 "Forbidden"
      else answered (map (listed_out c.user_role) (query c case_id db))

  -- The checks by role of `verify_evidence`.
  unfoldable pub require_reader : Caller → Artifact → Answer Unit
  require_reader c a =
      if c.user_role == "investigator"
      then (if not (a.uploaded_by == c.user_id)
          then http_error 403 "Access denied: not the owner of this artifact"
          else answered tt)
      else if is_case_reader c.user_role && not (contains (assigned_of (auth c.user_id)) a.case_id)
      then http_error 403 "Not assigned to this case"
      else answered tt

  -- The checks by role of `get_evidence`, which come first to an admin.
  unfoldable pub require_viewer : Caller → Artifact → Answer Unit
  require_viewer c a =
      if c.user_role == "admin" then http_error 403 "Forbidden" else require_reader c a

  -- Those of `download_evidence`, which has none for a legal reviewer.
  unfoldable pub require_downloader : Caller → Artifact → Answer Unit
  require_downloader c a =
      if c.user_role == "investigator"
      then (if not (a.uploaded_by == c.user_id)
          then http_error 403 "Access denied: not the owner of this artifact"
          else answered tt)
      else if c.user_role == "forensic_analyst"
          && not (contains (assigned_of (auth c.user_id)) a.case_id)
      then http_error 403 "Not assigned to this case"
      else answered tt
