-- ===== src/Api.antt =====
-- The interfaces of forensic-ui/src/api: what the server sends and is sent. A union of literals is
-- the text that the server sends.
pub mod Endpoints
pub mod Examples
use forensic_chain.Common.{ℕ, String, Bool, Option, List}

-- api/evidence.ts
pub record Artifact : Type 0 where
  pub artifact_id : String
  pub case_id : String
  pub file_name : String
  pub file_size : ℕ
  pub artifact_type : String
  pub description : Option String
  pub hash_algorithm : Option String
  pub hash_value : Option String
  pub signature_value : Option String
  pub ledger_record_id : Option String
  pub uploaded_by : Option String
  pub status : String
  pub uploaded_at : Option String

pub record VerificationResult : Type 0 where
  pub artifact_id : String
  pub verification_result : String
  pub original_hash : String
  pub current_hash : String
  pub signature_valid : Bool
  pub ledger_chain_valid : Bool
  pub verified_at : String

-- api/cases.ts
pub record Case : Type 0 where
  pub id : String
  pub case_number : String
  pub title : String
  pub description : Option String
  pub status : String
  pub created_at : String
  pub created_by : String

pub record CaseAssignment : Type 0 where
  pub id : String
  pub case_id : String
  pub username : String
  pub role_in_case : String
  pub assigned_at : String
  pub assigned_by : String
  pub is_active : Bool

-- api/admin.ts
pub record AdminUser : Type 0 where
  pub id : String
  pub username : String
  pub role : String
  pub is_active : Bool
  pub created_at : String

pub record CreateUserBody : Type 0 where
  pub username : String
  pub password : String
  pub role : String

-- api/custody.ts
pub record CustodyEvent : Type 0 where
  pub event_id : String
  pub event_type : String
  pub actor_id : String
  pub actor_role : String
  pub timestamp : String
  pub reason : Option String
  pub ip_address : Option String
  pub event_hash : String
  pub previous_event_hash : Option String

pub record Timeline : Type 0 where
  pub artifact_id : String
  pub total_events : ℕ
  pub chain_valid : Bool
  pub events : List CustodyEvent

-- api/ledger.ts
pub record LedgerRecord : Type 0 where
  pub record_id : String
  pub artifact_id : String
  pub case_id : String
  pub record_type : String
  pub hash_algorithm : Option String
  pub hash_value : Option String
  pub payload_hash : String
  pub previous_record_hash : Option String
  pub record_hash : String
  pub created_at : String

pub record LedgerValidation : Type 0 where
  pub case_id : String
  pub chain_valid : Bool
  pub checked_records : ℕ
  pub error_message : String

-- api/reports.ts
pub record Report : Type 0 where
  pub report_id : String
  pub artifact_id : String
  pub case_id : Option String
  pub report_hash : String
  pub format : String
  pub generated_at : String
  pub generated_by : String
  pub storage_path : Option String

pub record ReportVerification : Type 0 where
  pub report_id : String
  pub report_valid : Bool
  pub stored_hash : String
  pub current_hash : String
  pub verified_at : String
