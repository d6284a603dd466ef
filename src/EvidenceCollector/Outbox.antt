-- ===== src/EvidenceCollector/Outbox.antt =====
-- services/evidence-collector/routers/evidence.py and worker.py: the events that wait for the broker.
use Prim.Native.String.{◌++◌ as concat}
use forensic_chain.Common.{
  ℕ, zero, suc, String, true, false, Option, none, some, List, [], ◌∷◌, ◌++◌, if◌then◌else◌, ◌==◌,
}
use forensic_chain.EvidenceCollector.Records.{OutboxEvent, EvidenceDb, Caller}

unfoldable pub outbox_event : Caller → String → String → String → String → String → OutboxEvent
outbox_event c artifact_id case_id event_type routing_key reason = record {
  event_type = event_type;
  routing_key = routing_key;
  artifact_id = artifact_id;
  case_id = case_id;
  actor_id = c.user_id;
  actor_role = c.user_role;
  reason = reason;
  published = false;
  retry_count = 0;
  last_error = none;
}

-- `_write_evidence_event_outbox` and `_write_verification_outbox`, which only log the exception of
-- the database, if any.
unfoldable pub write_outbox : Option String → OutboxEvent → EvidenceDb → EvidenceDb
write_outbox (some message) e db = db
write_outbox none e db = record db { outbox = db.outbox ++ e ∷ [] }

-- `_VERIFICATION_ROUTING_KEYS` and the reason of an event that tells a result.
unfoldable pub verification_event : Caller → String → String → String → OutboxEvent
verification_event c artifact_id case_id result =
    if result == "VALID"
    then outbox_event c artifact_id case_id "VerificationPassed" "forensicchain.verification.passed"
        "Artifact integrity verified — result: VALID"
    else outbox_event c artifact_id case_id "VerificationFailed" "forensicchain.verification.failed"
        (concat "Artifact integrity verified — result: " result)

unfoldable pub requested_event : Caller → String → String → OutboxEvent
requested_event c artifact_id case_id =
    outbox_event c artifact_id case_id "VerificationRequested"
      "forensicchain.verification.requested" "Integrity verification requested"

-- The body of the loop of `publish_outbox_events`: the exchange takes the event, or raises.
unfoldable pub attempt : (OutboxEvent → Option String) → OutboxEvent → OutboxEvent
attempt exchange e = elim (exchange e) [
  | none ↦ record e { published = true }
  | some message ↦ record e { retry_count = suc e.retry_count; last_error = some message }
]

-- The first events that are not published, at most `limit` of them, are attempted.
unfoldable pub publish : (OutboxEvent → Option String) → ℕ → List OutboxEvent → List OutboxEvent
publish exchange limit [] = []
publish exchange zero (e ∷ es) = e ∷ es
publish exchange (suc limit) (e ∷ es) =
    let skipped = publish exchange (suc limit) es in
    let tried = publish exchange limit es in
    if e.published then e ∷ skipped else attempt exchange e ∷ tried

-- What the exchange raises on an event, if anything, and what the database raises in the turn, if
-- anything: then the turn is rolled back.
abbrev pub Turn : Type 0
Turn = (OutboxEvent → Option String) × Option String

-- `publish_outbox_events`, with `LIMIT 10`.
unfoldable pub publish_outbox_events : Turn → List OutboxEvent → List OutboxEvent
publish_outbox_events (exchange, none) es = publish exchange 10 es
publish_outbox_events (exchange, some message) es = es

-- The loop of the worker, for some turns.
unfoldable pub poll : List Turn → List OutboxEvent → List OutboxEvent
poll [] es = es
poll (turn ∷ rest) es = poll rest (publish_outbox_events turn es)
