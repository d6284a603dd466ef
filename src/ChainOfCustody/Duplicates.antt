-- ===== src/ChainOfCustody/Duplicates.antt =====
-- An event is stored once, however often it is delivered.
use forensic_chain.Common.{
  ℕ, String, Bool, true, List, [], ◌∷◌, ◌≡◌, refl, sym, subst, inl, inr, arith, eq_iff, ◌==◌, All,
  All-snoc, All-imp, IsAscending, IsAscending-snoc, not, contains,
}
use forensic_chain.ChainOfCustody.Events.{
  CustodyEvent, CustodyDb, Externals, commit, is_already_processed,
}
use forensic_chain.ChainOfCustody.Consumer.{Faults, consume}
use forensic_chain.ChainOfCustody.Stored.{Stores, Next, consume-Next}
use forensic_chain.ChainOfCustody.Deliveries.{run, empty_db}

-- Every event is recorded as processed, and no two have one id.
abbrev different_ids : CustodyEvent → CustodyEvent → Bool
different_ids a b = not (a.event_id == b.event_id)

abbrev pub HasDistinctIds : List CustodyEvent → Type 0
HasDistinctIds es = IsAscending different_ids es

IsRecorded : CustodyDb → Type 0
IsRecorded db =
    HasDistinctIds db.events × All (λ e. contains db.processed e.event_id ≡ true) db.events

module _ (x : Externals) where
  commit-IsRecorded :
      (db : CustodyDb) (e : CustodyEvent) → Stores x db e → IsRecorded db → IsRecorded (commit e db)
  unfolding IsRecorded commit is_already_processed contains
  commit-IsRecorded db e h (distinct, recorded) = (
    IsAscending-snoc different_ids db.events e distinct (
        All-imp (λ y. contains db.processed y.event_id ≡ true) (λ y. different_ids y e ≡ true)
          (λ y seen. ground (arith, eq_iff y.event_id e.event_id, h.is_new, seen)) db.events
          recorded),
    All-snoc (λ y. contains (e.event_id ∷ db.processed) y.event_id ≡ true) db.events e
        (All-imp (λ y. contains db.processed y.event_id ≡ true)
          (λ y. contains (e.event_id ∷ db.processed) y.event_id ≡ true)
          (λ y seen. ground (arith, seen)) db.events recorded)
        (ground (arith, (eq_iff e.event_id e.event_id).1 refl)),
  )

  Next-IsRecorded : (db next : CustodyDb) → Next x db next → IsRecorded db → IsRecorded next
  Next-IsRecorded db next (inl same) h = subst IsRecorded (sym same) h
  Next-IsRecorded db next (inr (e, new, stored)) h =
      subst IsRecorded (sym stored) (commit-IsRecorded db e new h)

  run-IsRecorded :
      (db : CustodyDb) (ds : List (Faults × String × ℕ)) → IsRecorded db → IsRecorded (run x db ds)
  unfolding run
  run-IsRecorded db [] h = h
  run-IsRecorded db ((f, text, n) ∷ ds) h =
      run-IsRecorded (consume x f db text n).0 ds
        (Next-IsRecorded db _ (consume-Next x f db text n) h)

  -- Whatever is delivered, and however often, no two stored events have one event id.
  pub run-HasDistinctIds :
      (ds : List (Faults × String × ℕ)) → HasDistinctIds (run x (empty_db x) ds).events
  unfolding IsRecorded
  run-HasDistinctIds ds = (run-IsRecorded (empty_db x) ds (tt, tt)).0
