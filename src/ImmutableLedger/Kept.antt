-- ===== src/ImmutableLedger/Kept.antt =====
-- Records in order: what it means for the records of a case, and that a new record keeps it.
use forensic_chain.Common.{
  ℕ, suc, ◌<◌, String, true, false, Option, none, some, List, [], ◌∷◌, ◌++◌, map, ◌≡◌, refl, sym,
  ◌∙◌, ap, subst, inl, inr, arith, Bool-cases, Option-cases, filter, All, All-snoc, All-filter,
  IsAscending, IsAscending-snoc, filter-append, map-snoc, lookup, insert, lookup-insert, ◌==◌,
  eq_iff, ◌≤◌, if◌then◌else◌,
}
use mathlib.Core.List.{append-nil}
use forensic_chain.ImmutableLedger.Hashing.{Externals, create_hash_chain_entry}
use forensic_chain.ImmutableLedger.Records.{LedgerRecord, LedgerDb, in_case, earlier}
use forensic_chain.ImmutableLedger.Appending.{
  Surroundings, Entry, head_of, ensure_state, new_record, commit,
}
use forensic_chain.ImmutableLedger.Chain.{Seals, IsChain, tip, IsChain-snoc, tip-snoc}

pub earlier_asym : (a b : LedgerRecord) → earlier a b ≡ true → earlier b a ≡ false
unfolding earlier
earlier_asym a b h = ground arith

earlier_of_lt : (a b : LedgerRecord) → a.created_at < b.created_at → earlier a b ≡ true
unfolding earlier
earlier_of_lt a b h = ground arith

-- A case without a row gets one whose head is None, and no head changes.
pub head_of-ensure_state :
    (c d : String) (states : List (String × Option String))
    → head_of d (ensure_state c states) ≡ head_of d states
unfolding head_of ensure_state
head_of-ensure_state c d states = elim (Option-cases (lookup c states)) [
  | inl missing ↦ rw (missing, lookup-insert c d none states) (ground (arith, eq_iff c d, missing))
  | inr (v, found) ↦ rw found refl
]

head_of-insert :
    (c d h : String) (states : List (String × Option String))
    → head_of d (insert c (some h) states) ≡ (if c == d then some h else head_of d states)
unfolding head_of
head_of-insert c d h states = rw (lookup-insert c d (some h) states) (ground arith)

module _ (x : Externals) where
  -- Records that form a chain in the order of their times, with the hash at its end.
  pub record InOrder (rs : List LedgerRecord) (head : Option String) : Type 0 where
    pub chain : IsChain x none rs
    pub tip_eq : tip x none rs ≡ head
    pub ascending : IsAscending earlier rs

  -- The records of a case are in order, and `ledger_state` holds the hash at their end.
  abbrev pub IsKept : String → LedgerDb → Type 0
  IsKept c db = InOrder (filter (in_case c) db.records) (head_of c db.ledger_state)

  -- Every record is of a time before `t`.
  abbrev pub IsBefore : ℕ → List LedgerRecord → Type 0
  IsBefore t rs = All (λ r. r.created_at < t) rs

  All-earlier :
      (r : LedgerRecord) (rs : List LedgerRecord)
      → IsBefore r.created_at rs
      → All (λ q. earlier q r ≡ true) rs
  All-earlier r [] h = tt
  All-earlier r (q ∷ rs) h = (earlier_of_lt q r h.0, All-earlier r rs h.1)

  InOrder-snoc :
      (rs : List LedgerRecord) (head : Option String) (r : LedgerRecord)
      → Seals x head r
      → IsBefore r.created_at rs
      → InOrder rs head
      → InOrder (rs ++ r ∷ []) (some r.record_hash)
  InOrder-snoc rs head r sealed later h = record {
    chain = IsChain-snoc x none rs r h.chain (subst (λ t. Seals x t r) (sym h.tip_eq) sealed);
    tip_eq = tip-snoc x none rs r;
    ascending = IsAscending-snoc earlier rs r h.ascending (All-earlier r rs later);
  }

  records-commit :
      (c : String) (r : LedgerRecord) (db : LedgerDb)
      → filter (in_case c) (commit x r db).records
        ≡ (let rs = filter (in_case c) db.records in if r.case_id == c then rs ++ r ∷ [] else rs)
  unfolding commit in_case filter
  records-commit c r db = elim (Bool-cases (r.case_id == c)) [
    | inl t ↦ rw (filter-append (in_case c) db.records (r ∷ []), t) refl
    | inr f ↦
        rw (filter-append (in_case c) db.records (r ∷ []), f)
          (append-nil (filter (in_case c) db.records))
  ]

  head_of-commit :
      (c : String) (r : LedgerRecord) (db : LedgerDb)
      → head_of c (commit x r db).ledger_state
        ≡ (if r.case_id == c then some r.record_hash else head_of c db.ledger_state)
  unfolding commit
  head_of-commit c r db =
      let states = ensure_state r.case_id db.ledger_state in
      head_of-insert r.case_id c r.record_hash states
      ∙ ap (λ h. if r.case_id == c then some r.record_hash else h)
          (head_of-ensure_state r.case_id c db.ledger_state)

  -- A record that seals the head of its case keeps the records of every case in order.
  pub commit-IsKept :
      (c : String) (r : LedgerRecord) (db : LedgerDb)
      → Seals x (head_of r.case_id db.ledger_state) r
      → IsBefore r.created_at db.records
      → IsKept c db
      → IsKept c (commit x r db)
  commit-IsKept c r db sealed later h =
      rw (records-commit c r db, head_of-commit c r db)
        (elim (Bool-cases (r.case_id == c)) [
          | inl own ↦ rw own (
              InOrder-snoc (filter (in_case c) db.records) (head_of c db.ledger_state) r
                (subst (λ k. Seals x (head_of k db.ledger_state) r) ((eq_iff r.case_id c).0 own)
                  sealed)
                (All-filter (λ q. q.created_at < r.created_at) (in_case c) db.records later) h)
          | inr off ↦ rw off h
        ])

  pub new_record-Seals :
      (s : Surroundings) (entry : Entry) (artifact_id : ℕ) (previous : Option String)
      → Seals x previous (new_record x s entry artifact_id previous)
  unfolding new_record Seals create_hash_chain_entry
  new_record-Seals s entry artifact_id previous = (refl, refl, refl)

  pub IsBefore-le : (t u : ℕ) (rs : List LedgerRecord) → t ≤ u → IsBefore t rs → IsBefore u rs
  IsBefore-le t u [] le h = tt
  IsBefore-le t u (r ∷ rs) le h = (omega (arith, h.0, le), IsBefore-le t u rs le h.1)

  pub commit-IsBefore :
      (s : Surroundings) (r : LedgerRecord) (db : LedgerDb)
      → r.created_at ≡ s.now
      → IsBefore s.now db.records
      → IsBefore (suc s.now) (commit x r db).records
  unfolding commit
  commit-IsBefore s r db e h =
      All-snoc (λ q. q.created_at < suc s.now) db.records r
        (IsBefore-le s.now (suc s.now) db.records (omega arith) h) (omega (arith, e))

  pub payloads-commit :
      (c : String) (r : LedgerRecord) (db : LedgerDb)
      → map (λ q. q.raw_payload) (filter (in_case c) (commit x r db).records)
        ≡ map (λ q. q.raw_payload) (filter (in_case c) db.records)
          ++ (if r.case_id == c then r.raw_payload ∷ [] else [])
  payloads-commit c r db = rw (records-commit c r db) (elim (Bool-cases (r.case_id == c)) [
    | inl own ↦ rw own (map-snoc (λ q. q.raw_payload) (filter (in_case c) db.records) r)
    | inr off ↦ rw off (sym (append-nil (map (λ q. q.raw_payload) (filter (in_case c) db.records))))
  ])
