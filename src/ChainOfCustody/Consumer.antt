-- ===== src/ChainOfCustody/Consumer.antt =====
-- services/chain-of-custody/consumer.py: what one delivery of a message does.
use Prim.Native.Char.{code}
use Prim.Native.String.{◌++◌ as concat}
use forensic_chain.Common.{ℕ, suc, String, Option, none, some, [], if◌then◌else◌, lookup, ltb, eqb}
use forensic_chain.Python.{Attempt, returned, raised, and_next}
use forensic_chain.ChainOfCustody.Events.{
  Payload, PayloadField, missing, null, object, Body, EventContent, CustodyEvent, CustodyDb,
  Externals, compute_event_hash, is_already_processed, get_last_event_hash, commit,
}

abbrev pub max_retries : ℕ
max_retries = 3

-- The exceptions of one delivery, if any: of the first query of the database, and of a later
-- statement or the commit; of the `ack` after it; and, in the `except` branch, of the publishing of
-- the copy, of the `ack` after that, and of the rejection.
pub record Faults : Type 0 where
  pub early : Option String
  pub late : Option String
  pub ack_fault : Option String
  pub publish_fault : Option String
  pub release_fault : Option String
  pub reject_fault : Option String

-- `body[key]`
unfoldable pub required : String → Option String → Attempt String
required key none = raised key
required key (some value) = returned value

-- `body.get("payload", {})`, which `.get("ip_address")` is called on
unfoldable pub payload_of : PayloadField → Attempt Payload
payload_of missing = returned []
payload_of null = raised "'NoneType' object has no attribute 'get'"
payload_of (object p) = returned p

-- `s.replace("Z", "+00:00")`
unfoldable pub replace_z : String → String
replace_z String.[] = ""
replace_z (String.◌∷◌ c s) =
    let rest = replace_z s in if eqb (code c) 90 then concat "+00:00" rest else String.◌∷◌ c rest

-- What the consumer does with a message after it tried it: it acknowledges it, publishes a copy with
-- a count and acknowledges it, or rejects it. An exception of the `except` branch ends the loop, with
-- the message kept by the broker: `kept` before a copy is published, and `doubled` after.
pub data Settled : Type 0 where
  acked : Settled
  republished doubled : ℕ → Settled
  rejected : Settled
  kept : Settled

-- The first value when no exception is raised, the second when one is.
unfoldable pub unless_raised : {A : Type 0} → Option String → A → A → A
unless_raised none value raised_value = value
unless_raised (some message) value raised_value = raised_value

-- The `except` branch, at the count of the header `x-retry-count`.
unfoldable pub after_failure : Faults → ℕ → Settled
unfolding unless_raised
after_failure f retry_count =
    let count = suc retry_count in
    if ltb retry_count max_retries
    then unless_raised f.publish_fault
        (unless_raised f.release_fault (republished count) (doubled count)) kept
    else unless_raised f.reject_fault rejected kept

module _ (x : Externals) where
  -- The event and its content; the previous hash is that of the database.
  unfoldable pub build_content : Body → String → String → Option String → Attempt EventContent
  unfolding required payload_of
  build_content body event_id artifact_id previous =
      and_next (required "event_type" body.event_type) (λ event_type.
        and_next (required "actor_id" body.actor_id) (λ actor_id.
          and_next (required "actor_role" body.actor_role) (λ actor_role.
            and_next (required "timestamp" body.timestamp) (λ timestamp.
              and_next (payload_of body.payload) (λ payload. returned (record {
                event_id = event_id;
                event_type = event_type;
                artifact_id = artifact_id;
                case_id = body.case_id;
                actor_id = actor_id;
                actor_role = actor_role;
                timestamp = timestamp;
                reason = body.reason;
                ip_address = lookup "ip_address" payload;
                correlation_id = body.correlation_id;
                payload = payload;
                previous_event_hash = previous;
              }))))))

  -- The row of an event: its content at the time that the text of the timestamp names.
  unfoldable pub event_row : ℕ → EventContent → ℕ → CustodyEvent
  event_row id content time = record {
    id = id;
    event_id = content.event_id;
    artifact_id = content.artifact_id;
    case_id = content.case_id;
    actor_id = content.actor_id;
    actor_role = content.actor_role;
    event_type = content.event_type;
    timestamp = time;
    reason = content.reason;
    ip_address = content.ip_address;
    correlation_id = content.correlation_id;
    payload = content.payload;
    previous_event_hash = content.previous_event_hash;
    event_hash = compute_event_hash x content;
  }

  unfoldable pub new_event : CustodyDb → Body → String → String → Attempt CustodyEvent
  new_event db body event_id artifact_id =
      and_next (build_content body event_id artifact_id (get_last_event_hash db artifact_id))
        (λ content.
          and_next (x.from_iso (replace_z content.timestamp))
            (λ time. returned (event_row db.next_id content time)))

  unfoldable pub store : Faults → CustodyDb → CustodyEvent → Attempt CustodyDb
  store f db e = elim f.late [ some message ↦ raised message | none ↦ returned (commit e db) ]

  unfoldable pub process_new : Faults → CustodyDb → Body → String → String → Attempt CustodyDb
  process_new f db body event_id artifact_id =
      if is_already_processed db event_id
      then returned db
      else and_next (new_event db body event_id artifact_id) (store f db)

  unfoldable pub process_body : Faults → CustodyDb → Body → Attempt CustodyDb
  process_body f db body = and_next (required "event_id" body.event_id) (λ event_id.
      and_next (required "artifact_id" body.artifact_id) (λ artifact_id. elim f.early [
        | some message ↦ raised message
        | none ↦ process_new f db body event_id artifact_id
      ]))

  -- `_process_message`: the database after it, or the exception, after which nothing is committed.
  unfoldable pub process_message : Faults → CustodyDb → String → Attempt CustodyDb
  process_message f db text = and_next (x.loads text) (process_body f db)

  -- One turn of the loop of `consume_events`.
  unfoldable pub consume : Faults → CustodyDb → String → ℕ → CustodyDb × Settled
  unfolding after_failure unless_raised
  consume f db text retry_count = elim (process_message f db text) [
    | returned next ↦ (next, unless_raised f.ack_fault acked (after_failure f retry_count))
    | raised message ↦ (db, after_failure f retry_count)
  ]
