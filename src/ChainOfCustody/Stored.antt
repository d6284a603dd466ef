-- ===== src/ChainOfCustody/Stored.antt =====
-- What one delivery may store.
use forensic_chain.Common.{
  ℕ, String, false, Option, ◌≡◌, refl, sym, ◌∙◌, ap, ◌⊎◌, inl, inr, Bool-cases, Option-cases,
}
use forensic_chain.Python.{
  Ends-value, Ends-raised, Attempt-cases, Ends, Ends-returned, and_next-Ends,
}
use forensic_chain.ChainOfCustody.Events.{
  Body, EventContent, CustodyEvent, CustodyDb, Externals, is_already_processed, get_last_event_hash,
  commit,
}
use forensic_chain.ChainOfCustody.Consumer.{
  Faults, build_content, event_row, new_event, store, process_new, process_body, process_message,
  consume,
}

module _ (x : Externals) where
  -- `e` may be stored into `db`: it is new, and links to the latest event of its artifact.
  pub record Stores (db : CustodyDb) (e : CustodyEvent) : Type 0 where
    pub is_new : is_already_processed db e.event_id ≡ false
    pub link : e.previous_event_hash ≡ get_last_event_hash db e.artifact_id
    pub next_in_sequence : e.id ≡ db.next_id

  -- The content keeps the ids and the link that it is built from.
  abbrev IsOf : String → String → Option String → EventContent → Type 0
  IsOf event_id artifact_id previous c =
      (c.event_id ≡ event_id) × (c.artifact_id ≡ artifact_id) × (c.previous_event_hash ≡ previous)

  build_content-IsOf :
      (body : Body) (event_id artifact_id : String) (previous : Option String)
      → Ends
          (IsOf event_id artifact_id previous)
          (build_content x body event_id artifact_id previous)
  unfolding build_content
  build_content-IsOf body event_id artifact_id previous = and_next-Ends _ _ _ (λ t _.
      and_next-Ends _ _ _ (λ a _. and_next-Ends _ _ _ (λ r _.
        and_next-Ends _ _ _
          (λ s _. and_next-Ends _ _ _ (λ p _. Ends-value _ _ (refl, refl, refl))))))

  new_event-Stores :
      (db : CustodyDb) (body : Body) (event_id artifact_id : String)
      → is_already_processed db event_id ≡ false
      → Ends (Stores db) (new_event x db body event_id artifact_id)
  unfolding new_event event_row
  new_event-Stores db body event_id artifact_id fresh =
      let previous = get_last_event_hash db artifact_id in
      and_next-Ends _ _ _ (λ c built.
        let (event, artifact, link) =
          Ends-returned (IsOf event_id artifact_id previous) _ c
            (build_content-IsOf body event_id artifact_id previous) built in
        and_next-Ends _ _ _ (λ time _. Ends-value (Stores db) _ (record {
          is_new = rw event fresh;
          link = link ∙ ap (get_last_event_hash db) (sym artifact);
          next_in_sequence = refl;
        })))

  pub new_event-SameId :
      (db : CustodyDb) (body : Body) (event_id artifact_id : String)
      → Ends (λ e. e.event_id ≡ event_id) (new_event x db body event_id artifact_id)
  unfolding new_event event_row
  new_event-SameId db body event_id artifact_id =
      let previous = get_last_event_hash db artifact_id in
      and_next-Ends _ _ _ (λ c built.
        let (event, _, _) =
          Ends-returned (IsOf event_id artifact_id previous) _ c
            (build_content-IsOf body event_id artifact_id previous) built in
        and_next-Ends _ _ _ (λ time _. Ends-value (λ e. e.event_id ≡ event_id) _ event))

  -- A delivery that does not raise leaves the database, or stores one event into it.
  abbrev pub Next : CustodyDb → CustodyDb → Type 0
  Next db next = (next ≡ db) ⊎ ((e : CustodyEvent) × Stores db e × (next ≡ commit e db))

  store-Next :
      (f : Faults) (db : CustodyDb) (e : CustodyEvent)
      → Stores db e
      → Ends (Next db) (store x f db e)
  unfolding store
  store-Next f db e h = elim (Option-cases f.late) [
    | inl none_raised ↦ rw (store, none_raised) (Ends-value (Next db) _ (inr (e, h, refl)))
    | inr (m, late) ↦ rw (store, late) (Ends-raised (Next db) m)
  ]

  process_new-Next :
      (f : Faults) (db : CustodyDb) (body : Body) (event_id artifact_id : String)
      → Ends (Next db) (process_new x f db body event_id artifact_id)
  unfolding process_new
  process_new-Next f db body event_id artifact_id =
      elim (Bool-cases (is_already_processed db event_id)) [
        | inl seen ↦ rw seen (Ends-value (Next db) _ (inl refl))
        | inr fresh ↦ rw fresh (
            and_next-Ends _ _ _ (λ e made. store-Next f db e (
              Ends-returned (Stores db) _ e (new_event-Stores db body event_id artifact_id fresh)
                made)))
      ]

  process_message-Next :
      (f : Faults) (db : CustodyDb) (text : String) → Ends (Next db) (process_message x f db text)
  unfolding process_message process_body
  process_message-Next f db text = and_next-Ends _ _ _ (λ body _. and_next-Ends _ _ _ (λ event_id _.
      and_next-Ends _ _ _ (λ artifact_id _. elim (Option-cases f.early) [
        | inl ok ↦ rw ok (process_new-Next f db body event_id artifact_id)
        | inr (m, bad) ↦ rw bad (Ends-raised (Next db) m)
      ])))

  -- So does the turn of the loop, which leaves the database when the delivery raises.
  pub consume-Next :
      (f : Faults) (db : CustodyDb) (text : String) (retry_count : ℕ)
      → Next db (consume x f db text retry_count).0
  unfolding consume
  consume-Next f db text retry_count = elim (Attempt-cases (process_message x f db text)) [
    | inl (next, e) ↦
        rw (consume, e) (Ends-returned (Next db) _ next (process_message-Next f db text) e)
    | inr (m, e) ↦ rw (consume, e) (inl refl)
  ]
