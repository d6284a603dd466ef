-- ===== src/ImmutableLedger/Columns.antt =====
-- The columns of a record that the validation of its chain does not read.
use forensic_chain.Common.{
  ℕ, suc, String, Bool, Option, none, some, List, [], ◌∷◌, map, ◌≡◌, refl, ap, inl, inr, arith,
  Bool-cases, filter, sort_by, insert_by, is_truthy,
}
use forensic_chain.ImmutableLedger.Hashing.{Externals}
use forensic_chain.ImmutableLedger.Records.{
  ProofColumns, LedgerRecord, LedgerDb, in_case, earlier, records_of,
}
use forensic_chain.ImmutableLedger.Validation.{
  record_error, validate_loop, validate_ledger_chain, invalid,
}
use forensic_chain.Python.{strip}

module _ {A : Type 0} (f : A → A) where
  pub filter-map :
      (p : A → Bool)
      → ((a : A) → p (f a) ≡ p a)
      → (xs : List A) → filter p (map f xs) ≡ map f (filter p xs)
  unfolding filter
  filter-map p h [] = refl
  filter-map p h (y ∷ xs) = ground (arith, h y, filter-map p h xs)

  module _ (before : A → A → Bool) (h : (a b : A) → before (f a) (f b) ≡ before a b) where
    insert_by-map :
        (a : A) (xs : List A) → insert_by before (f a) (map f xs) ≡ map f (insert_by before a xs)
    unfolding insert_by
    insert_by-map a [] = refl
    insert_by-map a (y ∷ xs) = ground (arith, h y a, insert_by-map a xs)

    pub sort_by-map : (xs : List A) → sort_by before (map f xs) ≡ map f (sort_by before xs)
    unfolding sort_by
    sort_by-map [] = refl
    sort_by-map (y ∷ xs) = rw (sort_by-map xs) (insert_by-map y (sort_by before xs))

module _ (x : Externals) (artifact : LedgerRecord → ℕ) (kind : LedgerRecord → String)
    (columns : LedgerRecord → ProofColumns) where
  -- A record with other values in the columns that say what the proof is of, and what it is.
  abbrev pub overwrite : LedgerRecord → LedgerRecord
  overwrite r = record r { artifact_id = artifact r; record_type = kind r; proof = columns r }

  validate_loop-overwrite :
      (expected : Option String) (n : ℕ) (rs : List LedgerRecord)
      → validate_loop x expected n (map overwrite rs) ≡ validate_loop x expected n rs
  unfolding validate_loop record_error
  validate_loop-overwrite expected n [] = refl
  validate_loop-overwrite expected n (r ∷ rs) =
      ap
        (λ rest. elim (record_error x expected r) [
          | some message ↦ invalid n message
          | none ↦ rest
        ])
        (validate_loop-overwrite (some r.record_hash) (suc n) rs)

  records_of-overwrite :
      (c : String) (db : LedgerDb)
      → records_of c (record db { records = map overwrite db.records })
        ≡ map overwrite (records_of c db)
  unfolding records_of in_case earlier
  records_of-overwrite c db =
      rw (filter-map overwrite (in_case c) (λ r. refl) db.records)
        (sort_by-map overwrite earlier (λ a b. refl) (filter (in_case c) db.records))

  -- The response of `ValidateLedgerChain` is the same when in any records the artifact, the record
  -- type, the hash, the signature and the signer are overwritten.
  pub validate_ledger_chain-overwrite :
      (fault : Option String) (db : LedgerDb) (c : String)
      → validate_ledger_chain x fault (record db { records = map overwrite db.records }) c
        ≡ validate_ledger_chain x fault db c
  unfolding validate_ledger_chain
  validate_ledger_chain-overwrite (some message) db c = refl
  validate_ledger_chain-overwrite none db c = elim (Bool-cases (is_truthy (strip c))) [
    | inl t ↦
        rw (t, records_of-overwrite (strip c) db)
          (validate_loop-overwrite none 0 (records_of (strip c) db))
    | inr f ↦ rw f refl
  ]
