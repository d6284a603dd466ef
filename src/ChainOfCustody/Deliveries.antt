-- ===== src/ChainOfCustody/Deliveries.antt =====
-- Any sequence of deliveries, from an empty database.
use mathlib.Core.List.{append-nil}
use forensic_chain.Common.{
  ℕ, String, true, false, Option, none, some, List, [], ◌∷◌, ◌++◌, ◌≡◌, refl, sym, ◌∙◌, ap, subst,
  inl, inr, arith, eq_iff, Bool-cases, ◌==◌, filter, filter-append, sort_by, insert_by, All,
  All-sort_by, IsAscending, sort_by_of_IsAscending, if◌then◌else◌,
}
use forensic_chain.Python.{same_option_iff}
use forensic_chain.ChainOfCustody.Events.{
  CustodyEvent, CustodyDb, Externals, of_artifact, earlier, later, hash_of_first,
  get_last_event_hash, get_timeline, commit,
}
use forensic_chain.ChainOfCustody.Consumer.{Faults, consume}
use forensic_chain.ChainOfCustody.Timeline.{validate_from, validate_chain}
use forensic_chain.ChainOfCustody.Stored.{Stores, Next, consume-Next}

abbrev pub IsLinked : Option String → List CustodyEvent → Type 0
IsLinked previous [] = Unit
IsLinked previous (e ∷ es) = (e.previous_event_hash ≡ previous) × IsLinked (some e.event_hash) es

-- The hash at the end of a chain that starts after `previous`.
abbrev pub tip : Option String → List CustodyEvent → Option String
tip previous [] = previous
tip previous (e ∷ es) = tip (some e.event_hash) es

pub validate_from_of_IsLinked :
    (previous : Option String) (es : List CustodyEvent)
    → IsLinked previous es
    → validate_from previous es ≡ true
unfolding validate_from
validate_from_of_IsLinked previous [] h = refl
validate_from_of_IsLinked previous (e ∷ es) h =
    rw ((same_option_iff e.previous_event_hash previous).1 h.0)
      (validate_from_of_IsLinked (some e.event_hash) es h.1)

IsLinked-snoc :
    (previous : Option String) (es : List CustodyEvent) (e : CustodyEvent)
    → IsLinked previous es
    → e.previous_event_hash ≡ tip previous es
    → IsLinked previous (es ++ e ∷ [])
IsLinked-snoc previous [] e h l = (l, tt)
IsLinked-snoc previous (y ∷ es) e h l = (h.0, IsLinked-snoc (some y.event_hash) es e h.1 l)

pub earlier_asym : (a b : CustodyEvent) → earlier a b ≡ true → earlier b a ≡ false
unfolding earlier
earlier_asym a b h = ground arith

-- The prefix of an ascending list is ascending.
IsAscending-prefix :
    (es : List CustodyEvent) (e : CustodyEvent)
    → IsAscending earlier (es ++ e ∷ [])
    → IsAscending earlier es
IsAscending-prefix [] e h = tt
IsAscending-prefix (y ∷ es) e h = (All-prefix es h.0, IsAscending-prefix es e h.1)
  where
    All-prefix :
        (zs : List CustodyEvent)
        → All (λ z. earlier y z ≡ true) (zs ++ e ∷ [])
        → All (λ z. earlier y z ≡ true) zs
    All-prefix [] k = tt
    All-prefix (z ∷ zs) k = (k.0, All-prefix zs k.1)

hash_of_first-insert_by :
    (e : CustodyEvent) (es : List CustodyEvent) (h : String)
    → All (λ y. earlier e y ≡ true) es
    → hash_of_first es ≡ some h
    → hash_of_first (insert_by later e es) ≡ some h
unfolding hash_of_first insert_by later
hash_of_first-insert_by e [] h a eq = cc
hash_of_first-insert_by e (y ∷ es) h a eq = rw a.0 eq

-- The latest of ascending events is the last.
hash_of_first-sort_by :
    (e : CustodyEvent) (es : List CustodyEvent)
    → IsAscending earlier (e ∷ es)
    → (h : String) × (hash_of_first (sort_by later (e ∷ es)) ≡ some h)
      × (tip (some e.event_hash) es ≡ some h)
unfolding hash_of_first sort_by insert_by
hash_of_first-sort_by e [] a = (e.event_hash, refl, refl)
hash_of_first-sort_by e (y ∷ es) a =
    let (h, first, last) = hash_of_first-sort_by y es a.1 in
    let above = All-sort_by later (λ z. earlier e z ≡ true) (y ∷ es) a.0 in
    (h, hash_of_first-insert_by e (sort_by later (y ∷ es)) h above first, last)

latest-eq-tip :
    (es : List CustodyEvent)
    → IsAscending earlier es
    → hash_of_first (sort_by later es) ≡ tip none es
unfolding sort_by hash_of_first
latest-eq-tip [] a = refl
latest-eq-tip (e ∷ es) a = let (h, first, last) = hash_of_first-sort_by e es a in first ∙ sym last

pub filter-commit :
    (a : String) (e : CustodyEvent) (db : CustodyDb)
    → filter (of_artifact a) (commit e db).events ≡ (
        let es = filter (of_artifact a) db.events in
        if e.artifact_id == a then es ++ e ∷ [] else es)
unfolding commit of_artifact filter
filter-commit a e db = elim (Bool-cases (e.artifact_id == a)) [
  | inl t ↦ rw (filter-append (of_artifact a) db.events (e ∷ []), t) refl
  | inr f ↦ rw (filter-append (of_artifact a) db.events (e ∷ []), f) (append-nil _)
]

-- Events of the artifact that were stored in the order of their times are linked.
abbrev pub IsKept : String → CustodyDb → Type 0
IsKept a db =
    IsAscending earlier (filter (of_artifact a) db.events)
    → IsLinked none (filter (of_artifact a) db.events)

module _ (x : Externals) where
  -- The deliveries one after the other: the faults, the text of the message, its count of retries.
  unfoldable pub run : CustodyDb → List (Faults × String × ℕ) → CustodyDb
  run db [] = db
  run db ((f, text, retry_count) ∷ ds) = run (consume x f db text retry_count).0 ds

  abbrev pub empty_db : CustodyDb
  empty_db = record { events = []; processed = []; next_id = 1 }

  commit-IsKept :
      (a : String) (db : CustodyDb) (e : CustodyEvent)
      → Stores x db e
      → IsKept a db
      → IsKept a (commit e db)
  unfolding get_last_event_hash
  commit-IsKept a db e h kept = rw (filter-commit a e db) (elim (Bool-cases (e.artifact_id == a)) [
    | inr f ↦ rw f kept
    | inl t ↦ rw t (λ up.
        let es = filter (of_artifact a) db.events in
        let below = IsAscending-prefix es e up in
        let link : e.previous_event_hash ≡ hash_of_first (sort_by later es) =
          h.link ∙ ap (get_last_event_hash db) ((eq_iff e.artifact_id a).0 t) in
        IsLinked-snoc none es e (kept below) (link ∙ latest-eq-tip es below))
  ])

  Next-IsKept : (a : String) (db next : CustodyDb) → Next x db next → IsKept a db → IsKept a next
  Next-IsKept a db next (inl same) kept = subst (IsKept a) (sym same) kept
  Next-IsKept a db next (inr (e, h, stored)) kept =
      subst (IsKept a) (sym stored) (commit-IsKept a db e h kept)

  run-IsKept :
      (a : String) (db : CustodyDb) (ds : List (Faults × String × ℕ))
      → IsKept a db
      → IsKept a (run db ds)
  unfolding run
  run-IsKept a db [] kept = kept
  run-IsKept a db ((f, text, n) ∷ ds) kept =
      run-IsKept a (consume x f db text n).0 ds
        (Next-IsKept a db _ (consume-Next x f db text n) kept)

  -- Whatever is delivered, and whatever fails: when the events of an artifact were stored in the
  -- order of their times, its timeline is found to be a valid chain.
  pub run-chain_valid :
      (a : String) (ds : List (Faults × String × ℕ))
      → IsAscending earlier (filter (of_artifact a) (run empty_db ds).events)
      → validate_chain (get_timeline (run empty_db ds) a) ≡ true
  unfolding validate_chain get_timeline filter
  run-chain_valid a ds up =
      rw
        (sort_by_of_IsAscending earlier earlier_asym
          (filter (of_artifact a) (run empty_db ds).events) up)
        (validate_from_of_IsLinked none _ (run-IsKept a empty_db ds (λ _. tt) up))
