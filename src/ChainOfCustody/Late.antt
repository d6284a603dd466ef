-- ===== src/ChainOfCustody/Late.antt =====
-- An event that is stored after a later one.
use forensic_chain.Common.{
  ◌<◌, String, true, false, Option, none, some, List, [], ◌∷◌, ◌++◌, ◌≡◌, ◌≢◌, refl, sym, ◌∙◌, ap,
  inl, inr, arith, Bool-cases, filter, sort_by, insert_by, insert_by-first, All, All-insert_by,
  All-imp, Holds, IsAscending, eq_iff,
}
use forensic_chain.Python.{same_option, same_option_iff}
use forensic_chain.ChainOfCustody.Events.{
  CustodyEvent, CustodyDb, of_artifact, earlier, get_timeline, commit,
}
use forensic_chain.ChainOfCustody.Timeline.{validate_from, validate_chain}
use forensic_chain.ChainOfCustody.Deliveries.{IsLinked, filter-commit, earlier_asym}

earlier_trans :
    (a b c : CustodyEvent) → earlier a b ≡ true → earlier b c ≡ true → earlier a c ≡ true
unfolding earlier
earlier_trans a b c h k = ground arith

earlier_total : (a b : CustodyEvent) → a.id < b.id → earlier a b ≡ false → earlier b a ≡ true
unfolding earlier
earlier_total a b h k = ground arith

-- Sorting puts a new event into its place among events that are in order.
sort_by-snoc :
    (e : CustodyEvent) (es : List CustodyEvent)
    → IsAscending earlier es
    → All (λ y. y.id < e.id) es
    → sort_by earlier (es ++ e ∷ []) ≡ insert_by earlier e es
unfolding sort_by insert_by
sort_by-snoc e [] up ids = refl
sort_by-snoc e (y ∷ es) up ids =
    rw (sort_by-snoc e es up.1 ids.1) (elim (Bool-cases (earlier y e)) [
      | inl t ↦ rw t (
          insert_by-first earlier earlier_asym y (insert_by earlier e es)
            (All-insert_by earlier (λ z. earlier y z ≡ true) e es t up.0))
      | inr f ↦
          let first = earlier_total y e ids.0 f in
          let below =
            All-imp (λ z. earlier y z ≡ true) (λ z. earlier e z ≡ true)
              (λ z h. earlier_trans e y z first h) es up.0 in
          rw (f, insert_by-first earlier earlier_asym e es below)
            (rw (insert_by, first) (rw (insert_by-first earlier earlier_asym y es up.0) refl))
    ])

same_option_off : (a b : Option String) → a ≢ b → same_option a b ≡ false
same_option_off a b h = elim (Bool-cases (same_option a b)) [
  | inl t ↦ absurd (h ((same_option_iff a b).0 t))
  | inr f ↦ f
]

-- Between two linked events a third breaks the chain, unless its hash is the first one's.
validate_from-insert_by :
    (previous : Option String) (e z : CustodyEvent) (es : List CustodyEvent)
    → IsLinked previous es
    → Holds z es
    → earlier z e ≡ false
    → previous ≢ some e.event_hash
    → All (λ y. some y.event_hash ≢ some e.event_hash) es
    → validate_from previous (insert_by earlier e es) ≡ false
unfolding validate_from insert_by
validate_from-insert_by previous e z [] h m late other others = absurd m
validate_from-insert_by previous e z (y ∷ es) h m late other others =
    elim (Bool-cases (earlier y e)) [
      | inl t ↦
          let rest : Holds z es = elim m [
            | inl same ↦ absurd (cc (ap (λ w. earlier w e) same, late, t))
            | inr held ↦ held
          ] in
          rw (t, (same_option_iff y.previous_event_hash previous).1 h.0)
            (validate_from-insert_by (some y.event_hash) e z es h.1 rest late others.0 others.1)
      | inr f ↦
          let off =
            same_option_off y.previous_event_hash (some e.event_hash) (λ k. other (sym h.0 ∙ k)) in
          rw (f, off) (ground arith)
    ]

-- The stored events of the artifact of `e`.
abbrev pub beside : CustodyEvent → CustodyDb → List CustodyEvent
beside e db = filter (of_artifact e.artifact_id) db.events

-- When the events of an artifact are linked and in the order of their times, and one more is stored
-- whose time is before that of one of them, the timeline is no longer found valid, unless the new
-- event has the hash of another.
pub late_event_breaks :
    (db : CustodyDb) (e z : CustodyEvent)
    → IsAscending earlier (beside e db)
    → IsLinked none (beside e db)
    → All (λ y. y.id < e.id) (beside e db)
    → All (λ y. y.event_hash ≢ e.event_hash) (beside e db)
    → Holds z (beside e db)
    → e.timestamp < z.timestamp
    → validate_chain (get_timeline (commit e db) e.artifact_id) ≡ false
unfolding validate_chain get_timeline earlier
late_event_breaks db e z up linked ids hashes held before =
    let es = beside e db in
    let own = filter-commit e.artifact_id e db in
    let off : earlier z e ≡ false = ground (arith, before) in
    rw (own, (eq_iff e.artifact_id e.artifact_id).1 refl, sort_by-snoc e es up ids)
      (validate_from-insert_by none e z es linked held off (λ k. cc k)
        (All-imp (λ y. y.event_hash ≢ e.event_hash) (λ y. some y.event_hash ≢ some e.event_hash)
          (λ y h k. h (ground (arith, k))) es hashes))
