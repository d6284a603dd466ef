-- ===== src/EvidenceCollector/Ingestion.antt =====
-- What an upload leaves in the store.
use Prim.Native.String.{◌++◌ as concat}
use forensic_chain.Common.{
  ℕ, String, Option, none, some, List, [], ◌∷◌, ◌++◌, ◌≡◌, refl, sym, subst, ap, ◌⊎◌, inl, inr,
  eqb_iff, eqb, Bool-cases, All, contains,
}
use forensic_chain.Python.{
  Attempt, returned, raised, Answer, answered, http_error, AssignmentsFetch, assigned_of,
}
use forensic_chain.EvidenceCollector.Records.{Artifact, Caller}
use forensic_chain.EvidenceCollector.Upload.{
  UploadForm, Signed, Surroundings, Store, pending, replace, with_artifact, with_file, without_file,
  Saving, lost, unread, saved, with_row, failed, ingested, ingested_event, with_event,
  finish_upload, append_to_ledger, mark_failed, not_finished, with_ingestion, not_saved,
  make_directory, sign_file, save_row, write_file, upload_evidence,
}

-- An artifact that no upload is at work on: it has its hash, its signature and its record of the
-- ledger, or it failed.
abbrev pub IsSettled : Artifact → Type 0
IsSettled a =
    ((a.status ≡ "INGESTED")
      × ((h : String) × (a.hash_value ≡ some h))
      × ((g : String) × (a.signature_value ≡ some g))
      × ((r : ℕ) × (a.ledger_record_id ≡ some r)))
    ⊎ (a.status ≡ "INGESTION_FAILED")

abbrev pub AllSettled : Store → Type 0
AllSettled store = All IsSettled store.db.artifacts

failed-IsSettled : (a : Artifact) → IsSettled (failed a)
unfolding failed
failed-IsSettled a = inr refl

ingested-IsSettled : (a : Artifact) (signed : Signed) (r : ℕ) → IsSettled (ingested a signed r)
unfolding ingested
ingested-IsSettled a signed r =
    inl (refl, (signed.hash_value, refl), (signed.signature_value, refl), (r, refl))

-- The new row is the one that its change replaces.
All-replace :
    (a done : Artifact) (xs : List Artifact)
    → done.artifact_id ≡ a.artifact_id
    → IsSettled done
    → All IsSettled xs
    → All IsSettled (replace done (xs ++ a ∷ []))
unfolding replace
All-replace a done [] same h all =
    rw ((eqb_iff a.artifact_id done.artifact_id).1 (sym same)) (h, tt)
All-replace a done (y ∷ xs) same h all = elim (Bool-cases (eqb y.artifact_id done.artifact_id)) [
  | inl t ↦ rw t (h, All-replace a done xs same h all.1)
  | inr f ↦ rw f (all.0, All-replace a done xs same h all.1)
]

-- What an upload does to a store in which all artifacts are settled. One that answers settles its
-- artifact and tells of it by one event. One that fails leaves all settled and tells of nothing;
-- unless the row was stored and could not be read, or its failure could not be stored, when it leaves
-- the pending artifact at the end; or the ingestion was stored and could not be read, when it is told.
abbrev pub Outcome : Caller → UploadForm → Surroundings → Store → Store × Answer Artifact → Type 0
Outcome c form s before (after, answered a) =
    (a.status ≡ "INGESTED")
    × AllSettled after
    × (after.db.outbox ≡ before.db.outbox ++ ingested_event c s a ∷ [])
Outcome c form s before (after, http_error status detail) =
    (AllSettled after × (after.db.outbox ≡ before.db.outbox))
    ⊎ (((message : String) × ((s.save ≡ unread message) ⊎ (s.mark_fault ≡ some message)))
        × (after.db.artifacts ≡ before.db.artifacts ++ pending c form s ∷ [])
        × (after.db.outbox ≡ before.db.outbox))
    ⊎ (((message : String) × (s.finish ≡ unread message))
        × AllSettled after
        × (after.db.outbox ≡ before.db.outbox ++ ingested_event c s (pending c form s) ∷ []))

replace-AllSettled :
    (done : Artifact) (xs : List Artifact)
    → IsSettled done
    → All IsSettled xs
    → All IsSettled (replace done xs)
unfolding replace
replace-AllSettled done [] h all = tt
replace-AllSettled done (y ∷ xs) h all = elim (Bool-cases (eqb y.artifact_id done.artifact_id)) [
  | inl t ↦ rw t (h, replace-AllSettled done xs h all.1)
  | inr f ↦ rw f (all.0, replace-AllSettled done xs h all.1)
]

with_artifact-AllSettled :
    (a done : Artifact) (store : Store)
    → done.artifact_id ≡ a.artifact_id
    → IsSettled done
    → AllSettled store
    → AllSettled (with_artifact done (with_row a store))
unfolding with_artifact with_row
with_artifact-AllSettled a done store same h all = All-replace a done store.db.artifacts same h all

module _ (c : Caller) (form : UploadForm) (s : Surroundings) (store : Store)
    (h : AllSettled store) where
  abbrev new : Artifact
  new = pending c form s

  -- The failure of the new artifact is stored, or it stays pending.
  mark_failed-Outcome :
      (fault : Option String) (status : ℕ) (detail : String) (f : Store → Store)
      → s.mark_fault ≡ fault
      → ((t : Store) → (f t).db ≡ t.db)
      → Outcome c form s store (
          mark_failed new
            (with_row new store)
            fault
            (λ marked. (f marked, http_error status detail)))
  unfolding mark_failed with_row pending failed with_artifact
  mark_failed-Outcome (some m) status detail f e same = inr (inl ((m, inr e), refl, refl))
  mark_failed-Outcome none status detail f e same = inl (
    subst (λ d. All IsSettled d.artifacts) (sym (same marked))
        (with_artifact-AllSettled new (failed new) store refl (failed-IsSettled new) h),
    ap (λ d. d.outbox) (same marked),
  )
    where
      marked : Store
      marked = with_artifact (failed new) (with_row new store)

  abbrev done : Signed → Artifact
  done signed = ingested new signed s.record_id

  ingestion-AllSettled :
      (signed : Signed) → AllSettled (with_ingestion c s (done signed) (with_row new store))
  unfolding with_ingestion with_event ingested
  ingestion-AllSettled signed =
      with_artifact-AllSettled new (done signed) store refl
        (ingested-IsSettled new signed s.record_id) h

  not_finished-Outcome :
      (signed : Signed) (message : String) (fault : Option String)
      → s.finish ≡ unread message
      → Outcome c form s store (
          mark_failed
            (done signed)
            (with_ingestion c s (done signed) (with_row new store))
            fault
            (λ marked. (
              marked,
              http_error 500 (concat "Failed to finalize artifact and outbox event: " message),
            )))
  unfolding mark_failed with_ingestion with_event ingested with_row pending ingested_event failed
      with_artifact
  not_finished-Outcome signed message (some m) e =
      inr (inr ((message, e), ingestion-AllSettled signed, refl))
  not_finished-Outcome signed message none e = inr (
      inr (
        (message, e),
        replace-AllSettled (failed (done signed)) _ (failed-IsSettled (done signed))
            (ingestion-AllSettled signed),
        refl,
      ))

  finish_upload-Outcome :
      (signed : Signed) (finish : Saving)
      → s.finish ≡ finish
      → Outcome c form s store (finish_upload c s signed new (with_row new store) finish)
  unfolding finish_upload not_finished with_ingestion with_event with_artifact with_row ingested
  finish_upload-Outcome signed (lost message) e =
      mark_failed-Outcome s.mark_fault 500 _ (λ t. t) refl (λ t. refl)
  finish_upload-Outcome signed (unread message) e =
      not_finished-Outcome signed message s.mark_fault e
  finish_upload-Outcome signed saved e = (refl, ingestion-AllSettled signed, refl)

  append_to_ledger-Outcome :
      (signed : Signed) (proof : Attempt String)
      → Outcome c form s store (append_to_ledger c s signed new (with_row new store) proof)
  unfolding append_to_ledger
  append_to_ledger-Outcome signed (raised error) =
      mark_failed-Outcome s.mark_fault 503 _ (λ t. t) refl (λ t. refl)
  append_to_ledger-Outcome signed (returned text) = finish_upload-Outcome signed s.finish refl

  sign_file-Outcome :
      (sign : Attempt Signed) → Outcome c form s store (sign_file c s new (with_row new store) sign)
  unfolding sign_file without_file
  sign_file-Outcome (raised error) =
      mark_failed-Outcome s.mark_fault 503 _ (without_file s.storage_path) refl (λ t. refl)
  sign_file-Outcome (returned signed) = append_to_ledger-Outcome signed s.append_proof

module _ (c : Caller) (form : UploadForm) (s : Surroundings) where
  save_row-Outcome :
      (store : Store) (save : Saving)
      → AllSettled store
      → s.save ≡ save
      → Outcome c form s store (save_row c form s store save)
  unfolding save_row not_saved without_file with_row
  save_row-Outcome store (lost message) h e = inl (h, refl)
  save_row-Outcome store (unread message) h e = inr (inl ((message, inl e), refl, refl))
  save_row-Outcome store saved h e = sign_file-Outcome c form s store h s.sign

  write_file-Outcome :
      (store : Store) (fault : Option String)
      → AllSettled store
      → Outcome c form s store (write_file c form s store fault)
  unfolding write_file with_file
  write_file-Outcome store (some message) h = inl (h, refl)
  write_file-Outcome store none h = save_row-Outcome (with_file s.storage_path store) s.save h refl

  make_directory-Outcome :
      (store : Store) (fault : Option String)
      → AllSettled store
      → Outcome c form s store (make_directory c form s store fault)
  unfolding make_directory
  make_directory-Outcome store (some message) h = inl (h, refl)
  make_directory-Outcome store none h = write_file-Outcome store s.write_fault h

  -- Whatever fails in an upload to a store in which all artifacts are settled: when it answers, its
  -- artifact is ingested and told by one event, and all artifacts are settled. When it does not,
  -- all are settled and nothing is told; unless the row was stored and could not be read, or its
  -- failure could not be stored, when the artifact is left pending and nothing is told; or the
  -- ingestion was stored and could not be read, when it is told and all are settled.
  pub upload_evidence-Settles :
      (auth : String → AssignmentsFetch) (store : Store)
      → AllSettled store
      → Outcome c form s store (upload_evidence auth c form s store)
  unfolding upload_evidence
  upload_evidence-Settles auth store h =
      elim (Bool-cases (contains (assigned_of (auth c.user_id)) form.case_id)) [
        | inl t ↦ rw (upload_evidence, t) (make_directory-Outcome store s.makedirs_fault h)
        | inr f ↦ rw (upload_evidence, f) (inl (h, refl))
      ]
