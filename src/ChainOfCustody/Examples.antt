-- ===== src/ChainOfCustody/Examples.antt =====
-- Runs of the chain of custody with small stand-ins, and each theorem at a concrete input.
use Prim.Native.String.{count}
use forensic_chain.Common.{
  if◌then◌else◌, ◌==◌, ℕ, String, true, false, Option, none, some, List, [], ◌∷◌, ◌≡◌, refl, arith,
  filter, sort_by, insert_by, contains, lookup, ne_of_test, inl, inr,
}
use forensic_chain.Python.{returned, raised, and_next}
use forensic_chain.ChainOfCustody.Events.{
  Body, CustodyEvent, CustodyDb, Externals, object, of_artifact, earlier, later, hash_of_first,
  get_last_event_hash, get_timeline, commit, compute_event_hash, is_already_processed,
}
use forensic_chain.ChainOfCustody.Consumer.{
  Faults, required, payload_of, replace_z, build_content, event_row, new_event, store, process_new,
  process_body, process_message, after_failure, unless_raised, consume,
}
use forensic_chain.ChainOfCustody.Timeline.{validate_chain}
use forensic_chain.ChainOfCustody.Deliveries.{run, empty_db, run-chain_valid}
use forensic_chain.ChainOfCustody.Late.{late_event_breaks}
use forensic_chain.ChainOfCustody.Retries.{after_turn, turn, deliver}
use forensic_chain.ChainOfCustody.Settling.{posted}
use forensic_chain.ChainOfCustody.Duplicates.{HasDistinctIds, run-HasDistinctIds}

abbrev body_of : String → String → Body
body_of id time = record {
  event_id = some id;
  artifact_id = some "a1";
  event_type = some "EVIDENCE_UPLOADED";
  actor_id = some "ana";
  actor_role = some "investigator";
  timestamp = some time;
  case_id = some "CASE-2024-001";
  reason = none;
  correlation_id = none;
  payload = object (("ip_address", "10.0.0.1") ∷ []);
}

-- A message is the time of its event, whose id it also is; "" does not parse.
abbrev toy : Externals
toy = record {
  loads = λ s. if s == "" then raised "Expecting value" else returned (body_of s s);
  dumps = λ c. c.event_id;
  sha256 = λ s. s;
  from_iso = λ s. returned (count s);
}

abbrev calm : Faults
calm = record {
  early = none;
  late = none;
  ack_fault = none;
  publish_fault = none;
  release_fault = none;
  reject_fault = none;
}

abbrev lost : Faults
lost = record calm { late = some "connection lost" }

-- The second delivery fails at its commit, and the third is a copy of the first.
abbrev deliveries : List (Faults × String × ℕ)
deliveries =
    (calm, "x", 0) ∷ (lost, "xx", 0) ∷ (calm, "x", 0) ∷ (calm, "xx", 1) ∷ (calm, "", 3) ∷ []

abbrev after : CustodyDb
after = run toy (empty_db toy) deliveries

run-chain_valid_example : validate_chain (get_timeline after "a1") ≡ true
unfolding run consume unless_raised process_message process_body process_new new_event build_content
    required payload_of and_next event_row store commit is_already_processed get_last_event_hash
    hash_of_first later earlier of_artifact filter sort_by insert_by contains lookup
    compute_event_hash replace_z
run-chain_valid_example = run-chain_valid toy "a1" deliveries ((refl, tt), (tt, tt))

run-HasDistinctIds_example : HasDistinctIds after.events
run-HasDistinctIds_example = run-HasDistinctIds toy deliveries

-- The commits fail, and the first time the acknowledgement of the message too.
abbrev turns : List Faults
turns =
    record lost { release_fault = some "channel closed" }
    ∷ lost
    ∷ calm
    ∷ lost
    ∷ lost
    ∷ lost
    ∷ lost
    ∷ lost
    ∷ []

-- Four deliveries that fail.
lost_message :
    deliver toy "x" (lost ∷ lost ∷ lost ∷ lost ∷ []) (posted toy "x" (empty_db toy))
    ≡ record { db = empty_db toy; waiting = []; dead = 3 ∷ [] }
unfolding consume process_message process_body process_new new_event build_content required
    payload_of and_next event_row store is_already_processed get_last_event_hash hash_of_first
    filter sort_by contains compute_event_hash replace_z deliver turn after_turn after_failure
    unless_raised
lost_message = refl

abbrev event : ℕ → ℕ → Option String → String → CustodyEvent
event id time previous hash = record {
  id = id;
  event_id = hash;
  artifact_id = "a1";
  case_id = some "CASE-2024-001";
  actor_id = "ana";
  actor_role = "investigator";
  event_type = "EVIDENCE_UPLOADED";
  timestamp = time;
  reason = none;
  ip_address = none;
  correlation_id = none;
  payload = [];
  previous_event_hash = previous;
  event_hash = hash;
}

abbrev stored : CustodyDb
stored = record {
  events = event 1 10 none "h1" ∷ event 2 20 (some "h1") "h2" ∷ [];
  processed = "h1" ∷ "h2" ∷ [];
  next_id = 3;
}

-- An event of the time 15 that comes last.
abbrev late : CustodyEvent
late = event 3 15 (some "h2") "h3"

late_event_breaks_example : validate_chain (get_timeline (commit late stored) "a1") ≡ false
unfolding filter of_artifact earlier
late_event_breaks_example =
    late_event_breaks stored late (event 2 20 (some "h1") "h2") ((refl, tt), (tt, tt))
      (refl, (refl, tt)) (omega arith, (omega arith, tt))
      (ne_of_test "h1" "h3" refl, (ne_of_test "h2" "h3" refl, tt)) (inr (inl refl)) (omega arith)
