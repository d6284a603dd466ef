-- ===== src/ChainOfCustody/Timeline.antt =====
-- services/chain-of-custody/routers/custody.py: the timeline of an artifact.
use Prim.Native.String.{◌++◌}
use forensic_chain.Common.{
  ℕ, String, Bool, true, false, Option, none, some, List, [], ◌∷◌, if◌then◌else◌, not, ◌||◌,
  is_present, contains, length, or_else,
}
use forensic_chain.Python.{Answer, answered, http_error, AssignmentsFetch, assigned_of, same_option}
use forensic_chain.ChainOfCustody.Events.{CustodyEvent, CustodyDb, get_timeline}

pub record TimelineResponse : Type 0 where
  pub artifact_id : String
  pub total_events : ℕ
  pub chain_valid : Bool
  pub events : List CustodyEvent

-- `_validate_chain`, where `expected` is the hash of the event before.
unfoldable pub validate_from : Option String → List CustodyEvent → Bool
validate_from expected [] = true
validate_from expected (e ∷ es) =
    let rest = validate_from (some e.event_hash) es in
    if not (same_option e.previous_event_hash expected) then false else rest

unfoldable pub validate_chain : List CustodyEvent → Bool
validate_chain es = validate_from none es

unfoldable pub timeline_of : String → List CustodyEvent → TimelineResponse
timeline_of artifact_id es = record {
  artifact_id = artifact_id;
  total_events = length es;
  chain_valid = validate_chain es;
  events = es;
}

unfoldable pub check_case :
    (String → AssignmentsFetch)
    → String
    → Option String
    → Option String
    → List CustodyEvent
    → Answer TimelineResponse
check_case auth artifact_id case_id user es =
    if not (is_present case_id) || not (is_present user)
    then http_error 403 "Cannot verify case assignment"
    else if not (contains (assigned_of (auth (or_else user ""))) (or_else case_id ""))
    then http_error 403 "Not assigned to this case"
    else answered (timeline_of artifact_id es)

-- The case is that of the first event.
unfoldable pub timeline_answer :
    (String → AssignmentsFetch)
    → Option String
    → String
    → List CustodyEvent
    → Answer TimelineResponse
timeline_answer auth user artifact_id [] =
    http_error 404 ("No custody events found for artifact " ++ artifact_id)
timeline_answer auth user artifact_id (e ∷ es) = check_case auth artifact_id e.case_id user (e ∷ es)

-- `get_custody_timeline`, with the header `x-user-id`.
unfoldable pub get_custody_timeline :
    (String → AssignmentsFetch) → Option String → CustodyDb → String → Answer TimelineResponse
get_custody_timeline auth user db artifact_id =
    timeline_answer auth user artifact_id (get_timeline db artifact_id)
