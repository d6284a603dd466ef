-- ===== src/EvidenceCollector/Upload.antt =====
-- services/evidence-collector/routers/evidence.py: `upload_evidence`, on the two tables and the files
-- of the storage.
use Prim.Native.String.{◌++◌ as concat}
use forensic_chain.Common.{
  ℕ, String, Option, none, some, List, [], ◌∷◌, ◌++◌, map, if◌then◌else◌, not, eqb, contains,
  filter, ◌==◌,
}
use forensic_chain.Python.{
  Attempt, returned, raised, Answer, answered, http_error, AssignmentsFetch, assigned_of,
}
use forensic_chain.EvidenceCollector.Records.{Artifact, OutboxEvent, EvidenceDb, Caller}
use forensic_chain.EvidenceCollector.Outbox.{outbox_event}

-- The form: the title is read and not used again.
pub record UploadForm : Type 0 where
  pub case_id : String
  pub title : String
  pub artifact_type : String
  pub description : Option String
  pub file_name : String
  pub file_size : ℕ

-- The hash, its algorithm and the signature of `compute_and_sign`.
pub record Signed : Type 0 where
  pub hash_value : String
  pub hash_algorithm : String
  pub signature_value : String

-- How a commit and the refresh after it end: an exception before the commit or of it, an exception
-- of the refresh, when the changes are stored, or none.
pub data Saving : Type 0 where
  lost unread : String → Saving
  saved : Saving

-- What surrounds one upload: the id that is drawn and its text, the path made from it, the time of
-- the database; what making the directory and writing the file raise, if anything; how the row is
-- saved; what the two services answer; how the last block is saved and the id of the ledger's record
-- that it reads; and what the commit of the status INGESTION_FAILED raises, if anything.
pub record Surroundings : Type 0 where
  pub artifact_id : ℕ
  pub artifact_text : String
  pub storage_path : String
  pub uploaded_at : ℕ
  pub makedirs_fault : Option String
  pub write_fault : Option String
  pub save : Saving
  pub sign : Attempt Signed
  pub append_proof : Attempt String
  pub finish : Saving
  pub record_id : ℕ
  pub mark_fault : Option String

-- The tables, and the paths of the stored files.
pub record Store : Type 0 where
  pub db : EvidenceDb
  pub files : List String

unfoldable pub pending : Caller → UploadForm → Surroundings → Artifact
pending c form s = record {
  artifact_id = s.artifact_id;
  case_id = form.case_id;
  file_name = form.file_name;
  file_size = form.file_size;
  artifact_type = form.artifact_type;
  storage_path = s.storage_path;
  description = form.description;
  uploaded_by = c.user_id;
  uploaded_at = s.uploaded_at;
  status = "PENDING";
  hash_value = none;
  hash_algorithm = none;
  signature_value = none;
  ledger_record_id = none;
}

-- The flush of the changed artifact.
unfoldable pub replace : Artifact → List Artifact → List Artifact
replace a as_stored = map (λ b. if eqb b.artifact_id a.artifact_id then a else b) as_stored

unfoldable pub with_artifact : Artifact → Store → Store
with_artifact a store = record store {
  db = record (store.db) { artifacts = replace a store.db.artifacts };
}

unfoldable pub with_file : String → Store → Store
with_file path store = record store { files = path ∷ store.files }

-- `shutil.rmtree(artifact_dir)`, whose one file is at `path`
unfoldable pub without_file : String → Store → Store
without_file path store = record store { files = filter (λ p. not (p == path)) store.files }

unfoldable pub with_row : Artifact → Store → Store
with_row a store = record store {
  db = record (store.db) { artifacts = store.db.artifacts ++ a ∷ [] };
}

unfoldable pub failed : Artifact → Artifact
failed a = record a { status = "INGESTION_FAILED" }

unfoldable pub ingested : Artifact → Signed → ℕ → Artifact
ingested a signed record_id = record a {
  status = "INGESTED";
  hash_value = some signed.hash_value;
  hash_algorithm = some signed.hash_algorithm;
  signature_value = some signed.signature_value;
  ledger_record_id = some record_id;
}

unfoldable pub ingested_event : Caller → Surroundings → Artifact → OutboxEvent
ingested_event c s a =
    outbox_event c s.artifact_text a.case_id "EvidenceIngested" "forensicchain.evidence.ingested"
      "Initial evidence ingestion"

unfoldable pub with_event : OutboxEvent → Store → Store
with_event e store = record store { db = record (store.db) { outbox = store.db.outbox ++ e ∷ [] } }

-- What the framework answers for an exception that the handler lets pass.
abbrev pub uncaught : Answer Artifact
uncaught = http_error 500 "Internal Server Error"

-- `artifact.status = "INGESTION_FAILED"`, its commit, and what follows.
unfoldable pub mark_failed :
    Artifact → Store → Option String → (Store → Store × Answer Artifact) → Store × Answer Artifact
mark_failed a store (some message) next = (store, uncaught)
mark_failed a store none next = next (with_artifact (failed a) store)

unfoldable pub not_finished : Surroundings → Artifact → Store → String → Store × Answer Artifact
not_finished s a store message = mark_failed a store s.mark_fault (λ marked.
    (marked, http_error 500 (concat "Failed to finalize artifact and outbox event: " message)))

-- The artifact and its event, committed together.
unfoldable pub with_ingestion : Caller → Surroundings → Artifact → Store → Store
with_ingestion c s done store = with_event (ingested_event c s done) (with_artifact done store)

-- The last block. The rollback takes back only what is not committed.
unfoldable pub finish_upload :
    Caller → Surroundings → Signed → Artifact → Store → Saving → Store × Answer Artifact
finish_upload c s signed a store (lost message) = not_finished s a store message
finish_upload c s signed a store (unread message) =
    let done = ingested a signed s.record_id in
    not_finished s done (with_ingestion c s done store) message
finish_upload c s signed a store saved =
    let done = ingested a signed s.record_id in (with_ingestion c s done store, answered done)

unfoldable pub append_to_ledger :
    Caller → Surroundings → Signed → Artifact → Store → Attempt String → Store × Answer Artifact
append_to_ledger c s signed a store (raised error) =
    mark_failed a store s.mark_fault
      (λ marked. (marked, http_error 503 (concat "Ledger append failed: " error)))
append_to_ledger c s signed a store (returned record_text) =
    finish_upload c s signed a store s.finish

unfoldable pub sign_file :
    Caller → Surroundings → Artifact → Store → Attempt Signed → Store × Answer Artifact
sign_file c s a store (raised error) = mark_failed a store s.mark_fault (λ marked.
    (without_file s.storage_path marked, http_error 503 (concat "Hash & Sign failed: " error)))
sign_file c s a store (returned signed) = append_to_ledger c s signed a store s.append_proof

-- The `except` branch of the first block, which removes the file.
unfoldable pub not_saved : Surroundings → String → Store → Store × Answer Artifact
not_saved s message store = (
  without_file s.storage_path store,
  http_error 500 (concat "Failed to save initial artifact metadata: " message),
)

unfoldable pub save_row :
    Caller → UploadForm → Surroundings → Store → Saving → Store × Answer Artifact
save_row c form s store (lost message) = not_saved s message store
save_row c form s store (unread message) = not_saved s message (with_row (pending c form s) store)
save_row c form s store saved =
    let a = pending c form s in sign_file c s a (with_row a store) s.sign

unfoldable pub write_file :
    Caller → UploadForm → Surroundings → Store → Option String → Store × Answer Artifact
write_file c form s store (some message) =
    (store, http_error 500 (concat "Failed to write file: " message))
write_file c form s store none = save_row c form s (with_file s.storage_path store) s.save

unfoldable pub make_directory :
    Caller → UploadForm → Surroundings → Store → Option String → Store × Answer Artifact
make_directory c form s store (some message) = (store, uncaught)
make_directory c form s store none = write_file c form s store s.write_fault

-- `upload_evidence`
unfoldable pub upload_evidence :
    (String → AssignmentsFetch)
    → Caller
    → UploadForm
    → Surroundings
    → Store
    → Store × Answer Artifact
upload_evidence auth c form s store =
    if not (contains (assigned_of (auth c.user_id)) form.case_id)
    then (store, http_error 403 "Not assigned to this case or case is not open")
    else make_directory c form s store s.makedirs_fault
