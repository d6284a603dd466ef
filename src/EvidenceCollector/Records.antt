-- ===== src/EvidenceCollector/Records.antt =====
-- services/evidence-collector/db/models.py, and what a request brings.
use forensic_chain.Common.{ℕ, String, Bool, Option, List}

-- A row of `artifacts`. A UUID is a number, and so is a time.
pub record Artifact : Type 0 where
  pub artifact_id : ℕ
  pub case_id : String
  pub file_name : String
  pub file_size : ℕ
  pub artifact_type : String
  pub storage_path : String
  pub description : Option String
  pub uploaded_by : String
  pub uploaded_at : ℕ
  pub status : String
  pub hash_value : Option String
  pub hash_algorithm : Option String
  pub signature_value : Option String
  pub ledger_record_id : Option ℕ

-- A row of `outbox_events`, with what its envelope says of a verification.
pub record OutboxEvent : Type 0 where
  pub event_type : String
  pub routing_key : String
  pub artifact_id : String
  pub case_id : String
  pub actor_id : String
  pub actor_role : String
  pub reason : String
  pub published : Bool
  pub retry_count : ℕ
  pub last_error : Option String

-- Both tables, with the events in the order of `created_at`.
pub record EvidenceDb : Type 0 where
  pub artifacts : List Artifact
  pub outbox : List OutboxEvent

-- The headers that the gateway adds; "unknown" for one that is missing.
pub record Caller : Type 0 where
  pub user_id : String
  pub user_role : String
