-- ===== src/ImmutableLedger/RoundTrip.antt =====
-- A proof that was appended is the one that is found.
use forensic_chain.Common.{
  ◌<◌, String, true, none, some, List, [], ◌∷◌, ◌++◌, ◌≡◌, refl, sym, ap, subst, inl, inr, arith,
  filter, sort_by, insert_by, All, All-filter, filter-append, eq_iff, eqb_iff,
}
use forensic_chain.Python.{returned}
use forensic_chain.ImmutableLedger.Hashing.{Externals}
use forensic_chain.ImmutableLedger.Records.{
  LedgerRecord, LedgerDb, ProofRecordRequest, ArtifactIntegrityProofResponse,
}
use forensic_chain.ImmutableLedger.Appending.{
  Surroundings, head_of, new_record, proof_entry, commit, append_proof_record,
}
use forensic_chain.ImmutableLedger.Validation.{
  is_proof_of, later, first, found_proof, proof_response, get_proof_by_artifact_id,
}
use forensic_chain.ImmutableLedger.Kept.{IsBefore}
use forensic_chain.ImmutableLedger.Refinement.{append_record-cases}

first-insert_by :
    (r q : LedgerRecord) (rs : List LedgerRecord)
    → later r q ≡ true
    → first rs ≡ some r
    → first (insert_by later q rs) ≡ some r
unfolding first insert_by
first-insert_by r q [] l e = cc
first-insert_by r q (y ∷ rs) l e = ground (arith, l, e)

-- The record that is later than all others is read first.
first-sort_by :
    (r : LedgerRecord) (rs : List LedgerRecord)
    → All (λ q. later r q ≡ true) rs
    → first (sort_by later (rs ++ r ∷ [])) ≡ some r
unfolding first sort_by insert_by
first-sort_by r [] h = refl
first-sort_by r (q ∷ rs) h =
    first-insert_by r q (sort_by later (rs ++ r ∷ [])) h.0 (first-sort_by r rs h.1)

All-later :
    (x : Externals) (r : LedgerRecord) (rs : List LedgerRecord)
    → IsBefore x r.created_at rs
    → All (λ q. later r q ≡ true) rs
unfolding later
All-later x r [] h = tt
All-later x r (q ∷ rs) h = (ground (arith, h.0), All-later x r rs h.1)

module _ (x : Externals) where
  filter-proof :
      (r : LedgerRecord)
      → r.record_type ≡ "EVIDENCE_PROOF_CREATED"
      → filter (is_proof_of r.artifact_id) (r ∷ []) ≡ r ∷ []
  unfolding filter is_proof_of
  filter-proof r kind = ground (
    arith,
    (eqb_iff r.artifact_id r.artifact_id).1 refl,
    (eq_iff r.record_type "EVIDENCE_PROOF_CREATED").1 kind,
  )

  get_proof-commit :
      (r : LedgerRecord) (db : LedgerDb) (requested : String)
      → x.parse_uuid requested ≡ returned r.artifact_id
      → r.record_type ≡ "EVIDENCE_PROOF_CREATED"
      → IsBefore x r.created_at db.records
      → get_proof_by_artifact_id x none (commit x r db) requested ≡ found_proof x r
  unfolding get_proof_by_artifact_id commit proof_response
  get_proof-commit r db requested parsed kind before =
      let p = is_proof_of r.artifact_id in
      rw (get_proof_by_artifact_id, parsed)
        (rw (filter-append p db.records (r ∷ []), filter-proof r kind)
          (ap (proof_response x) (
            first-sort_by r (filter p db.records) (
              All-later x r (filter p db.records)
                (All-filter (λ q. q.created_at < r.created_at) p db.records before)))))

  -- The response that carries the case and the proof of the request.
  abbrev pub Carries : ProofRecordRequest → ArtifactIntegrityProofResponse → Type 0
  Carries q found =
      (found.success ≡ true) × (found.case_id ≡ q.case_id) × (found.proof ≡ (proof_entry q).proof)

  -- When `AppendProofRecord` accepts a proof of the type that evidence has, with a clock later than
  -- every record, `GetProofByArtifactId` returns the hash and the signature of that request.
  pub get_proof-append :
      (s : Surroundings) (db : LedgerDb) (q : ProofRecordRequest)
      → (append_proof_record x s db q).1.success ≡ true
      → q.record_type ≡ "EVIDENCE_PROOF_CREATED"
      → IsBefore x s.now db.records
      → Carries q (get_proof_by_artifact_id x none (append_proof_record x s db q).0 q.artifact_id)
  unfolding append_proof_record proof_entry new_record found_proof
  get_proof-append s db q ok kind before = elim (append_record-cases x s db (proof_entry q)) [
    | inl (refused, same, failed) ↦ absurd (cc (ok, failed))
    | inr (a, accept, parsed, done) ↦
        let r = new_record x s (proof_entry q) a (head_of q.case_id db.ledger_state) in
        subst (λ p. Carries q (get_proof_by_artifact_id x none p.0 q.artifact_id)) (sym done)
          (subst (Carries q) (sym (get_proof-commit r db q.artifact_id parsed kind before))
            (refl, refl, refl))
  ]
