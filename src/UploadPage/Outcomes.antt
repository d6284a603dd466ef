-- ===== src/UploadPage/Outcomes.antt =====
-- How a submission ends.
use Prim.Native.String.{◌++◌ as concat}
use forensic_chain.Common.{
  ℕ, String, true, false, Option, some, ◌≡◌, refl, is_truthy, Bool-cases, inl, inr, ◌||◌,
}
use forensic_chain.Api.{Artifact}
use forensic_chain.Http.{Browser, Reply, resolved, rejected, status_of, is_status}
use forensic_chain.UploadPage.{
  State, init, reset_form, submit_started, upload_error, submit_settled, card_fields, card, view,
}

-- What a submission from `s` that the server answered has made of the page.
abbrev pub Ends : (String → String) → State → Reply Artifact → State → Type 0
Ends locale_time s (resolved a) t =
    (view locale_time t
      ≡ card a.status (card_fields locale_time a) (concat "/artifacts/" a.artifact_id))
    × (reset_form t ≡ record init { cases = s.cases; cases_loading = s.cases_loading })
Ends locale_time s (rejected err) t =
    (t ≡ record s { error = some (upload_error (status_of err)) })
    × (is_truthy (upload_error (status_of err)) ≡ true)

upload_error-is_truthy : (status : Option ℕ) → is_truthy (upload_error status) ≡ true
unfolding upload_error
upload_error-is_truthy status = elim (Bool-cases (is_status status 503 || is_status status 502)) [
  | inl e ↦ rw e
  | inr away ↦ rw away (elim (Bool-cases (is_status status 500)) [
    | inl e ↦ rw e
    | inr up ↦ rw up (elim (Bool-cases (is_status status 413)) [
      | inl e ↦ rw e
      | inr small ↦ rw small (elim (Bool-cases (is_status status 403)) [
        | inl e ↦ rw e
        | inr allowed ↦
            rw allowed
              (elim (Bool-cases (is_status status 400)) [ inl e ↦ rw e | inr valid ↦ rw valid ])
      ])
    ])
  ])
]

-- A submission with a file, from a form that is not busy, ends in one of two ways. On success the
-- page shows the card of the artifact, and "Upload another" brings back the form as it was first
-- shown, with the same cases. On failure all that the user entered is still there, the form is no
-- longer busy, and the error is a text that is not empty.
pub upload-Ends :
    (locale_time : String → String) (b : Browser) (s : State) (name : String) (r : Reply Artifact)
    → s.chosen ≡ some name
    → s.loading ≡ false
    → Ends locale_time s r (submit_settled r (submit_started b s).0)
unfolding submit_started submit_settled reset_form view
upload-Ends locale_time b s name (resolved a) has idle = rw has (refl, refl)
upload-Ends locale_time b s name (rejected err) has idle =
    rw has (cc, upload_error-is_truthy (status_of err))
