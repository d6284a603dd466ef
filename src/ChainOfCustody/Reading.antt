-- ===== src/ChainOfCustody/Reading.antt =====
-- What the timeline tells, and to whom.
use forensic_chain.Common.{
  String, Option, none, some, List, [], ◌∷◌, map, ◌≡◌, refl, inl, inr, arith, Bool-cases, Holds,
  contains, contains_iff,
}
use forensic_chain.Python.{answered, AssignmentsFetch, assigned_of}
use forensic_chain.ChainOfCustody.Events.{CustodyEvent, CustodyDb, Payload, get_timeline}
use forensic_chain.ChainOfCustody.Timeline.{
  TimelineResponse, validate_from, validate_chain, timeline_of, check_case, timeline_answer,
  get_custody_timeline,
}

-- An event with other contents under the same two hashes.
pub rewrite :
    (CustodyEvent → String)
    → (CustodyEvent → String)
    → (CustodyEvent → Option String)
    → (CustodyEvent → Payload)
    → CustodyEvent
    → CustodyEvent
rewrite actor role reason payload e = record e {
  actor_id = actor e;
  actor_role = role e;
  reason = reason e;
  payload = payload e;
}

validate_from-rewrite :
    (actor role : CustodyEvent → String) (reason : CustodyEvent → Option String)
    (payload : CustodyEvent → Payload) (previous : Option String) (es : List CustodyEvent)
    → validate_from previous (map (rewrite actor role reason payload) es)
      ≡ validate_from previous es
unfolding validate_from rewrite
validate_from-rewrite actor role reason payload previous [] = refl
validate_from-rewrite actor role reason payload previous (e ∷ es) =
    ground (arith, validate_from-rewrite actor role reason payload (some e.event_hash) es)

-- The validation says the same when the actors, their roles, the reasons and the payloads of any
-- events are rewritten in the database.
pub validate_chain-rewrite :
    (actor role : CustodyEvent → String) (reason : CustodyEvent → Option String)
    (payload : CustodyEvent → Payload) (es : List CustodyEvent)
    → validate_chain (map (rewrite actor role reason payload) es) ≡ validate_chain es
unfolding validate_chain
validate_chain-rewrite actor role reason payload es =
    validate_from-rewrite actor role reason payload none es

check_case-answered :
    (auth : String → AssignmentsFetch) (artifact_id : String) (case_id user : Option String)
    (es : List CustodyEvent) (response : TimelineResponse)
    → check_case auth artifact_id case_id user es ≡ answered response
    → (c : String) × (u : String) × (case_id ≡ some c)
      × (user ≡ some u)
      × Holds c (assigned_of (auth u))
      × (response ≡ timeline_of artifact_id es)
unfolding check_case
check_case-answered auth artifact_id none user es response e = absurd (ground (arith, e))
check_case-answered auth artifact_id (some c) none es response e = absurd (ground (arith, e))
check_case-answered auth artifact_id (some c) (some u) es response e =
    elim (Bool-cases (contains (assigned_of (auth u)) c)) [
      | inr f ↦ absurd (ground (arith, e, f))
      | inl t ↦
          (c, u, refl, refl, (contains_iff (assigned_of (auth u)) c).0 t, ground (arith, e, t))
    ]

timeline_answer-answered :
    (auth : String → AssignmentsFetch) (user : Option String) (artifact_id : String)
    (es : List CustodyEvent) (response : TimelineResponse)
    → timeline_answer auth user artifact_id es ≡ answered response
    → (first : CustodyEvent) × (rest : List CustodyEvent) × (c : String) × (u : String) × (es
        ≡ first ∷ rest)
      × (first.case_id ≡ some c)
      × (user ≡ some u)
      × Holds c (assigned_of (auth u))
      × (response ≡ timeline_of artifact_id es)
unfolding timeline_answer
timeline_answer-answered auth user artifact_id [] response e = absurd (ground (arith, e))
timeline_answer-answered auth user artifact_id (y ∷ es) response e =
    let (c, u, own, present, held, same) =
      check_case-answered auth artifact_id y.case_id user (y ∷ es) response e in
    (y, es, c, u, refl, own, present, held, same)

-- A timeline is shown only to a user who is assigned to the case of the artifact's first event, and
-- is that of all events of the artifact.
pub get_custody_timeline_guarded :
    (auth : String → AssignmentsFetch) (user : Option String) (db : CustodyDb)
    (artifact_id : String) (response : TimelineResponse)
    → get_custody_timeline auth user db artifact_id ≡ answered response
    → (first : CustodyEvent) × (rest : List CustodyEvent) × (c : String) × (u : String)
      × (get_timeline db artifact_id ≡ first ∷ rest)
      × (first.case_id ≡ some c)
      × (user ≡ some u)
      × Holds c (assigned_of (auth u))
      × (response ≡ timeline_of artifact_id (get_timeline db artifact_id))
unfolding get_custody_timeline
get_custody_timeline_guarded auth user db artifact_id response =
    timeline_answer-answered auth user artifact_id (get_timeline db artifact_id) response
