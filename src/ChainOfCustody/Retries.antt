-- ===== src/ChainOfCustody/Retries.antt =====
-- services/chain-of-custody/consumer.py: a message and its copies in the queue, until all are settled.
use forensic_chain.Common.{
  ℕ, suc, ◌+◌, ◌-◌, ◌≤◌, ◌<◌, String, Bool, true, false, List, [], ◌∷◌, ◌++◌, ◌≡◌, refl, sym, subst,
  ◌⊎◌, inl, inr, arith, Bool-cases, is_some, not, ◌&&◌, if◌then◌else◌, some, none, ltb, Option,
  Option-cases, eq_iff, contains,
}
use forensic_chain.Python.{
  returned, Ends, Ends-value, Ends-raised, Ends-returned, Ends-imp, and_next-Ends,
}
use forensic_chain.ChainOfCustody.Events.{
  Body, CustodyEvent, CustodyDb, Externals, is_already_processed, commit,
}
use forensic_chain.ChainOfCustody.Consumer.{
  Faults, Settled, acked, republished, doubled, rejected, kept, process_message, after_failure,
  unless_raised, consume, max_retries, process_body, process_new, required, store,
}
use forensic_chain.ChainOfCustody.Stored.{Next, new_event-SameId}

-- The database, the retry counts of the copies of the message in the queue, in the order in which
-- they are delivered, and those in the dead-letter queue.
pub record Course : Type 0 where
  pub db : CustodyDb
  pub waiting : List ℕ
  pub dead : List ℕ

-- What one delivery of the copy with the count `n` leads to. The broker delivers a copy that was
-- neither acknowledged nor rejected anew, ahead of the others.
unfoldable pub after_turn : ℕ → List ℕ → List ℕ → CustodyDb × Settled → Course
after_turn n rest dead (db, acked) = record { db = db; waiting = rest; dead = dead }
after_turn n rest dead (db, republished k) = record {
  db = db;
  waiting = rest ++ k ∷ [];
  dead = dead;
}
after_turn n rest dead (db, doubled k) = record {
  db = db;
  waiting = n ∷ rest ++ k ∷ [];
  dead = dead;
}
after_turn n rest dead (db, rejected) = record { db = db; waiting = rest; dead = dead ++ n ∷ [] }
after_turn n rest dead (db, kept) = record { db = db; waiting = n ∷ rest; dead = dead }

-- The broker takes what the `except` branch sends.
unfoldable pub takes : Faults → Bool
takes f =
    not (is_some f.publish_fault) && not (is_some f.release_fault) && not (is_some f.reject_fault)

-- The turns in which it does, and those in which it does not.
unfoldable pub smooth : List Faults → ℕ
smooth [] = 0
smooth (f ∷ fs) = let rest = smooth fs in if takes f then suc rest else rest

unfoldable pub rough : List Faults → ℕ
rough [] = 0
rough (f ∷ fs) = let rest = rough fs in if takes f then rest else suc rest

-- The deliveries that some copies can still take.
unfoldable pub left : List ℕ → ℕ
left [] = 0
left (n ∷ ns) = suc max_retries - n + left ns

pub left-snoc : (ns : List ℕ) (k : ℕ) → left (ns ++ k ∷ []) ≡ left ns + (suc max_retries - k)
unfolding left
left-snoc [] k = omega arith
left-snoc (n ∷ ns) k = omega (arith, left-snoc ns k)

-- What a failed delivery of the count `n` comes to.
abbrev pub Handled : Faults → ℕ → Settled → Type 0
Handled f n s =
    ((s ≡ republished (suc n)) × (n < max_retries))
    ⊎ ((s ≡ doubled (suc n)) × (n < max_retries) × (takes f ≡ false))
    ⊎ ((s ≡ rejected) × (n ≡ max_retries))
    ⊎ ((s ≡ kept) × (takes f ≡ false))

pub after_failure-Handled : (f : Faults) (n : ℕ) → n ≤ max_retries → Handled f n (after_failure f n)
unfolding after_failure unless_raised takes
after_failure-Handled f n small = elim (Bool-cases (ltb n max_retries)) [
  | inl more ↦ elim (Option-cases f.publish_fault) [
    | inr (m, e) ↦ inr (inr (inr (rw (after_failure, more, e) refl, rw e refl)))
    | inl e ↦ elim (Option-cases f.release_fault) [
      | inr (m, g) ↦
          inr (inl (rw (after_failure, more, e, g) refl, ground (arith, more), rw (e, g) refl))
      | inl g ↦ inl (rw (after_failure, more, e, g) refl, ground (arith, more))
    ]
  ]
  | inr last ↦ elim (Option-cases f.reject_fault) [
    | inr (m, e) ↦ inr (inr (inr (rw (after_failure, last, e) refl, ground (arith, e))))
    | inl e ↦ inr (inr (inl (rw (after_failure, last, e) refl, ground (arith, last, small))))
  ]
]

module _ (x : Externals) (text : String) where
  -- The event of the message is recorded as processed.
  abbrev pub IsStored : CustodyDb → Type 0
  IsStored db =
      (body : Body) × (event_id : String) × (x.loads text ≡ returned body)
      × (body.event_id ≡ some event_id)
      × (is_already_processed db event_id ≡ true)

  -- One turn: the consumer takes the first copy, if there is one.
  unfoldable pub turn : Faults → CustodyDb → List ℕ → List ℕ → Course
  turn f db [] dead = record { db = db; waiting = []; dead = dead }
  turn f db (n ∷ rest) dead = after_turn n rest dead (consume x f db text n)

  unfoldable pub deliver : List Faults → Course → Course
  deliver [] c = c
  deliver (f ∷ fs) c = deliver fs (turn f c.db c.waiting c.dead)

  pub Next-IsStored : (db next : CustodyDb) → Next x db next → IsStored db → IsStored next
  unfolding is_already_processed commit contains
  Next-IsStored db next (inl same) h = subst IsStored (sym same) h
  Next-IsStored db next (inr (e, new, stored)) (body, event_id, loaded, named, seen) =
      (body, event_id, loaded, named, rw stored (ground (arith, seen)))

  required-eq-some :
      (key : String) (o : Option String) (v : String) → required key o ≡ returned v → o ≡ some v
  unfolding required
  required-eq-some key none v e = cc
  required-eq-some key (some w) v e = ground (arith, e)

  abbrev Processed : String → CustodyDb → Type 0
  Processed event_id db = is_already_processed db event_id ≡ true

  store-Processed :
      (f : Faults) (db : CustodyDb) (e : CustodyEvent)
      → Ends (Processed e.event_id) (store x f db e)
  unfolding store is_already_processed commit contains
  store-Processed f db e = elim (Option-cases f.late) [
    | inl none_raised ↦
        rw (store, none_raised)
          (Ends-value (Processed e.event_id) _
            (ground (arith, (eq_iff e.event_id e.event_id).1 refl)))
    | inr (m, late) ↦ rw (store, late) (Ends-raised (Processed e.event_id) m)
  ]

  process_new-Processed :
      (f : Faults) (db : CustodyDb) (body : Body) (event_id artifact_id : String)
      → Ends (Processed event_id) (process_new x f db body event_id artifact_id)
  unfolding process_new
  process_new-Processed f db body event_id artifact_id =
      elim (Bool-cases (is_already_processed db event_id)) [
        | inl seen ↦ rw seen (Ends-value (Processed event_id) db seen)
        | inr fresh ↦ rw fresh (
            and_next-Ends _ _ _ (λ e made.
              let same =
                Ends-returned (λ e. e.event_id ≡ event_id) _ e
                  (new_event-SameId x db body event_id artifact_id) made in
              subst (λ i. Ends (Processed i) (store x f db e)) same (store-Processed f db e)))
      ]

  pub process_message-IsStored :
      (f : Faults) (db : CustodyDb) → Ends IsStored (process_message x f db text)
  unfolding process_message process_body
  process_message-IsStored f db = and_next-Ends _ _ _ (λ body loaded.
      and_next-Ends _ _ _ (λ event_id named. and_next-Ends _ _ _ (λ artifact_id _.
        elim (Option-cases f.early) [
          | inr (m, bad) ↦ rw bad (Ends-raised IsStored m)
          | inl ok ↦ rw ok (
              Ends-imp (Processed event_id) IsStored _
                (λ next seen.
                  (body, event_id, loaded, required-eq-some _ body.event_id event_id named, seen))
                (process_new-Processed f db body event_id artifact_id))
        ])))
