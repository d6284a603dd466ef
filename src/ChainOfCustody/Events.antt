-- ===== src/ChainOfCustody/Events.antt =====
-- services/chain-of-custody/chain/custody_chain.py, db/models.py and db/repository.py. SHA-256,
-- `json.dumps`, `json.loads` and the reading of a time are the fields of a parameter.
use forensic_chain.Common.{
  ℕ, suc, String, Bool, Option, none, some, List, [], ◌∷◌, ◌++◌, filter, sort_by, ltb, eqb,
  contains, ◌==◌, ◌&&◌, ◌||◌,
}
use forensic_chain.Python.{Attempt}

abbrev pub Payload : Type 0
Payload = List (String × String)

-- `body.get("payload", {})`: the key may be missing or null.
pub data PayloadField : Type 0 where
  missing null : PayloadField
  object : Payload → PayloadField

-- The body of a message. A required key is none when it is missing or null.
pub record Body : Type 0 where
  pub event_id : Option String
  pub artifact_id : Option String
  pub event_type : Option String
  pub actor_id : Option String
  pub actor_role : Option String
  pub timestamp : Option String
  pub case_id : Option String
  pub reason : Option String
  pub correlation_id : Option String
  pub payload : PayloadField

-- The dictionary of `build_event_content`.
pub record EventContent : Type 0 where
  pub event_id : String
  pub event_type : String
  pub artifact_id : String
  pub case_id : Option String
  pub actor_id : String
  pub actor_role : String
  pub timestamp : String
  pub reason : Option String
  pub ip_address : Option String
  pub correlation_id : Option String
  pub payload : Payload
  pub previous_event_hash : Option String

-- A row of `custody_events`: the content with its time as a number, and the hash.
pub record CustodyEvent : Type 0 where
  pub id : ℕ
  pub event_id : String
  pub artifact_id : String
  pub case_id : Option String
  pub actor_id : String
  pub actor_role : String
  pub event_type : String
  pub timestamp : ℕ
  pub reason : Option String
  pub ip_address : Option String
  pub correlation_id : Option String
  pub payload : Payload
  pub previous_event_hash : Option String
  pub event_hash : String

-- Both tables, and the next value of the sequence of `id`.
pub record CustodyDb : Type 0 where
  pub events : List CustodyEvent
  pub processed : List String
  pub next_id : ℕ

pub record Externals : Type 0 where
  pub loads : String → Attempt Body
  -- `json.dumps(event_content, sort_keys=True, default=str)`
  pub dumps : EventContent → String
  pub sha256 : String → String
  -- `datetime.fromisoformat`
  pub from_iso : String → Attempt ℕ

unfoldable pub compute_event_hash : Externals → EventContent → String
compute_event_hash x content = x.sha256 (x.dumps content)

unfoldable pub is_already_processed : CustodyDb → String → Bool
is_already_processed db event_id = contains db.processed event_id

unfoldable pub of_artifact : String → CustodyEvent → Bool
of_artifact artifact_id e = e.artifact_id == artifact_id

-- `ORDER BY timestamp ASC, id ASC`
unfoldable pub earlier : CustodyEvent → CustodyEvent → Bool
earlier a b = ltb a.timestamp b.timestamp || (eqb a.timestamp b.timestamp && ltb a.id b.id)

-- `ORDER BY timestamp DESC, id DESC`
unfoldable pub later : CustodyEvent → CustodyEvent → Bool
later a b = earlier b a

unfoldable pub hash_of_first : List CustodyEvent → Option String
hash_of_first [] = none
hash_of_first (e ∷ es) = some e.event_hash

unfoldable pub get_last_event_hash : CustodyDb → String → Option String
get_last_event_hash db artifact_id =
    hash_of_first (sort_by later (filter (of_artifact artifact_id) db.events))

unfoldable pub get_timeline : CustodyDb → String → List CustodyEvent
get_timeline db artifact_id = sort_by earlier (filter (of_artifact artifact_id) db.events)

-- `insert_custody_event` and `mark_processed`, once they are committed.
unfoldable pub commit : CustodyEvent → CustodyDb → CustodyDb
commit e db = record {
  events = db.events ++ e ∷ [];
  processed = e.event_id ∷ db.processed;
  next_id = suc db.next_id;
}
