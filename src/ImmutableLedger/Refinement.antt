-- ===== src/ImmutableLedger/Refinement.antt =====
-- The database that the calls leave, against a log of payloads for each case.
use forensic_chain.Common.{
  ℕ, suc, String, Bool, true, false, none, some, List, [], ◌∷◌, ◌++◌, map, ◌≡◌, refl, sym, ◌∙◌, ap,
  subst, ◌⊎◌, inl, inr, arith, Option-cases, filter, length, length-map, sort_by_of_IsAscending,
  lookup, ◌==◌, is_truthy, ◌≤◌, is_some, not, ◌&&◌, if◌then◌else◌,
}
use mathlib.Core.List.{append-nil, append_assoc}
use forensic_chain.Python.{returned, raised, strip, Attempt-cases}
use forensic_chain.ImmutableLedger.Hashing.{Payload, Externals}
use forensic_chain.ImmutableLedger.Records.{LedgerDb, in_case, earlier, records_of}
use forensic_chain.ImmutableLedger.Appending.{
  Surroundings, Entry, head_of, new_record, commit, append_record, insert_record, failed_append,
  appended,
}
use forensic_chain.ImmutableLedger.Chain.{validate_loop_of_IsChain}
use forensic_chain.ImmutableLedger.Validation.{valid, validate_ledger_chain}
use forensic_chain.ImmutableLedger.Kept.{
  IsKept, IsBefore, IsBefore-le, head_of-ensure_state, new_record-Seals, commit-IsKept,
  commit-IsBefore, payloads-commit, earlier_asym,
}

module _ (x : Externals) where
  -- What a call puts into the log of its case: its payload, if nothing raises.
  pub accepted : Surroundings → Entry → Bool
  accepted s entry = elim s.early_fault [
    | some message ↦ false
    | none ↦ elim (x.parse_uuid entry.artifact_id) [
      | raised message ↦ false
      | returned artifact_id ↦ not (is_some s.late_fault)
    ]
  ]

  -- The payloads of the calls for a case that are accepted, in the order of the calls.
  pub log : String → List (Surroundings × Entry) → List Payload
  unfolding accepted
  log c [] = []
  log c ((s, entry) ∷ calls) =
      let rest = log c calls in
      if accepted s entry && entry.case_id == c then entry.raw_payload ∷ rest else rest

  -- The calls one after the other, each with its surroundings.
  unfoldable pub run : LedgerDb → List (Surroundings × Entry) → LedgerDb
  run db [] = db
  run db ((s, entry) ∷ calls) = run (append_record x s db entry).0 calls

  -- The clock of each call is later than that of the calls before it, and at `t` or later.
  abbrev pub IsTicking : ℕ → List (Surroundings × Entry) → Type 0
  IsTicking t [] = Unit
  IsTicking t ((s, entry) ∷ calls) = (t ≤ s.now) × IsTicking (suc s.now) calls

  -- A call is rejected and leaves the database, or commits the record that it describes.
  pub append_record-cases :
      (s : Surroundings) (db : LedgerDb) (entry : Entry)
      → ((accepted s entry ≡ false)
          × ((append_record x s db entry).0 ≡ db)
          × ((append_record x s db entry).1.success ≡ false))
        ⊎ ((artifact_id : ℕ) × (accepted s entry ≡ true)
            × (x.parse_uuid entry.artifact_id ≡ returned artifact_id)
            × (append_record x s db entry ≡ (
                let head = head_of entry.case_id db.ledger_state in
                let r = new_record x s entry artifact_id head in
                (commit x r db, appended x entry r))))
  unfolding append_record insert_record accepted failed_append
  append_record-cases s db entry = elim (Option-cases s.early_fault) [
    | inr (m, e) ↦ inl (ground (arith, e), ground (arith, e), ground (arith, e))
    | inl e ↦ elim (Attempt-cases (x.parse_uuid entry.artifact_id)) [
      | inr (m, p) ↦ inl (ground (arith, e, p), ground (arith, e, p), ground (arith, e, p))
      | inl (a, p) ↦ elim (Option-cases s.late_fault) [
        | inr (m, l) ↦
            inl (ground (arith, e, p, l), ground (arith, e, p, l), ground (arith, e, p, l))
        | inl l ↦ inr (
          a,
          ground (arith, e, p, l),
          p,
          rw (append_record, e, p)
              (rw (insert_record, l)
                (ap (λ h. let r = new_record x s entry a h in (commit x r db, appended x entry r))
                  (head_of-ensure_state entry.case_id entry.case_id db.ledger_state))),
        )
      ]
    ]
  ]

  log-cons :
      (c : String) (s : Surroundings) (entry : Entry) (calls : List (Surroundings × Entry))
      → log c ((s, entry) ∷ calls)
        ≡ (if accepted s entry && entry.case_id == c then entry.raw_payload ∷ [] else [])
          ++ log c calls
  unfolding log
  log-cons c s entry calls = ground arith

  -- The payloads of a case, in the order of their insertion.
  abbrev pub payloads : String → LedgerDb → List Payload
  payloads c db = map (λ r. r.raw_payload) (filter (in_case c) db.records)

  -- `next` keeps the case `c` in order, up to the time `t`, and has `more` at its end.
  abbrev Extends : String → ℕ → LedgerDb → List Payload → LedgerDb → Type 0
  Extends c t db more next =
      IsKept x c next × IsBefore x t next.records × (payloads c next ≡ payloads c db ++ more)

  new_record-Extends :
      (c : String) (s : Surroundings) (db : LedgerDb) (entry : Entry) (a : ℕ)
      → IsBefore x s.now db.records
      → IsKept x c db
      → Extends c
          (suc s.now)
          db
          (if entry.case_id == c then entry.raw_payload ∷ [] else [])
          (commit x (new_record x s entry a (head_of entry.case_id db.ledger_state)) db)
  unfolding new_record
  new_record-Extends c s db entry a early h =
      let head = head_of entry.case_id db.ledger_state in
      let r = new_record x s entry a head in
      (
        commit-IsKept x c r db (new_record-Seals x s entry a head) early h,
        commit-IsBefore x s r db refl early,
        payloads-commit x c r db,
      )

  append_record-Extends :
      (c : String) (s : Surroundings) (db : LedgerDb) (entry : Entry)
      → IsBefore x s.now db.records
      → IsKept x c db
      → Extends c
          (suc s.now)
          db
          (if accepted s entry && entry.case_id == c then entry.raw_payload ∷ [] else [])
          (append_record x s db entry).0
  append_record-Extends c s db entry early h = elim (append_record-cases s db entry) [
    | inl (refused, same, failed) ↦ rw refused (
        subst (Extends c (suc s.now) db []) (sym same) (
          h,
          IsBefore-le x s.now (suc s.now) db.records (omega arith) early,
          sym (append-nil (payloads c db)),
        ))
    | inr (a, ok, parsed, done) ↦ rw ok (
        subst (Extends c (suc s.now) db (if entry.case_id == c then entry.raw_payload ∷ [] else []))
          (sym (ap (λ p. p.0) done)) (new_record-Extends c s db entry a early h))
  ]

  -- After the calls every case is in order, and its payloads are those it had and those of its log.
  pub run-IsKept :
      (c : String) (t : ℕ) (calls : List (Surroundings × Entry)) (db : LedgerDb)
      → IsTicking t calls
      → IsBefore x t db.records
      → IsKept x c db
      → IsKept x c (run db calls) × (payloads c (run db calls) ≡ payloads c db ++ log c calls)
  unfolding run log
  run-IsKept c t [] db ticking early h = (h, sym (append-nil (payloads c db)))
  run-IsKept c t ((s, entry) ∷ calls) db ticking early h =
      let (kept, below, here) =
        append_record-Extends c s db entry (IsBefore-le x t s.now db.records ticking.0 early) h in
      let (all_kept, rest) =
        run-IsKept c (suc s.now) calls (append_record x s db entry).0 ticking.1 below kept in
      (
        all_kept,
        rest
            ∙ ap (λ l. l ++ log c calls) here
            ∙ append_assoc (payloads c db) _ (log c calls)
            ∙ ap (λ l. payloads c db ++ l) (sym (log-cons c s entry calls)),
      )

  abbrev pub empty_db : LedgerDb
  empty_db = record { records = []; ledger_state = [] }

  pub empty_db-IsKept : (c : String) → IsKept x c empty_db
  unfolding head_of filter lookup
  empty_db-IsKept c = record { chain = tt; tip_eq = refl; ascending = tt }

  -- A case that is in order is read in the order of the insertions.
  pub records_of_of_IsKept :
      (c : String) (db : LedgerDb) → IsKept x c db → records_of c db ≡ filter (in_case c) db.records
  unfolding records_of
  records_of_of_IsKept c db h = sort_by_of_IsAscending earlier earlier_asym _ h.ascending

  -- When the clock of each call is later than that of the one before, the records of a case, as they
  -- are read back after any calls, hold the payloads of its log, in its order.
  pub run_refines :
      (c : String) (calls : List (Surroundings × Entry))
      → IsTicking 0 calls
      → map (λ r. r.raw_payload) (records_of c (run empty_db calls)) ≡ log c calls
  unfolding log filter
  run_refines c calls ticking =
      let (kept, same) = run-IsKept c 0 calls empty_db ticking tt (empty_db-IsKept c) in
      rw (records_of_of_IsKept c (run empty_db calls) kept) same

  -- When the clock of each call is later than that of the one before, the chain of any case is found
  -- valid, with as many records as its log, if the case asked for is not blank.
  pub validate_ledger_chain-run :
      (requested : String) (calls : List (Surroundings × Entry))
      → IsTicking 0 calls
      → is_truthy (strip requested) ≡ true
      → validate_ledger_chain x none (run empty_db calls) requested
        ≡ valid (length (log (strip requested) calls))
  unfolding validate_ledger_chain log filter
  validate_ledger_chain-run requested calls ticking present =
      let c = strip requested in
      let (kept, same) = run-IsKept c 0 calls empty_db ticking tt (empty_db-IsKept c) in
      let counted = sym (length-map (λ r. r.raw_payload) _) ∙ ap length same in
      rw (present, records_of_of_IsKept c (run empty_db calls) kept)
        (validate_loop_of_IsChain x none 0 _ kept.chain ∙ ap valid (omega (arith, counted)))

  -- A call whose clock is later than every record keeps every case in order.
  pub append_record-IsKept :
      (c : String) (s : Surroundings) (db : LedgerDb) (entry : Entry)
      → IsBefore x s.now db.records
      → IsKept x c db
      → IsKept x c (append_record x s db entry).0
  append_record-IsKept c s db entry early h = (append_record-Extends c s db entry early h).0

  -- A case that is in order is found valid.
  pub IsKept-chain_valid :
      (requested : String) (db : LedgerDb)
      → is_truthy (strip requested) ≡ true
      → IsKept x (strip requested) db
      → (validate_ledger_chain x none db requested).chain_valid ≡ true
  unfolding validate_ledger_chain
  IsKept-chain_valid requested db present kept =
      rw (present, records_of_of_IsKept (strip requested) db kept)
        (ap (λ v. v.chain_valid) (validate_loop_of_IsChain x none 0 _ kept.chain))
