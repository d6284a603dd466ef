-- ===== src/UploadPage/Examples.antt =====
-- A form that was filled in and sent.
use forensic_chain.Common.{String, false, none, some, List, [], ◌∷◌, ◌≡◌, refl, inl, inr}
use forensic_chain.Api.{Case}
use forensic_chain.Api.Endpoints
use forensic_chain.Api.Examples.{case_of}
use forensic_chain.Auth.Examples.{signed_in}
use forensic_chain.Search.Examples.{same_text}
use forensic_chain.Http.{Field, Reply, resolved, rejected, axios_error, on_request}
use forensic_chain.UploadPage.{State, init, cases_settled, submit_started, submit_settled}
use forensic_chain.UploadPage.Form.{
  CanSubmit, Reach, here, next, listed, pick_case, type_title, pick_type, choose, IsUpload,
  submit_sends-IsUpload,
}
use forensic_chain.UploadPage.Outcomes.{Ends, upload-Ends}

abbrev two_cases : Reply (List Case)
two_cases = resolved (case_of "CASE-2026-001" ∷ case_of "CASE-2026-002" ∷ [])

abbrev filled : State
filled = record (cases_settled two_cases init) {
  case_id = "CASE-2026-002";
  title = "Disk of the suspect";
  artifact_type = "DiskImage";
  chosen = some "disk.img";
}

cases_there :
    ((cases_settled two_cases init).cases_loading ≡ false)
    × ((cases_settled two_cases init).cases
        ≡ case_of "CASE-2026-001" ∷ case_of "CASE-2026-002" ∷ [])
    × ((cases_settled two_cases init).result ≡ none)
    × ((cases_settled two_cases init).loading ≡ false)
unfolding cases_settled
cases_there = (refl, refl, refl, refl)

filled-Reach : Reach init filled
unfolding cases_settled
filled-Reach =
    next
      (next
        (next
          (next (next here (listed two_cases refl))
            (pick_case "CASE-2026-002" refl (inr (inr (inl refl)))))
          (type_title "Disk of the suspect"))
        (pick_type "DiskImage" (inr (inl refl))))
      (choose (some "disk.img"))

filled-CanSubmit : CanSubmit filled
unfolding cases_settled
filled-CanSubmit = record { has_case = refl; has_title = refl; no_result = refl; idle = refl }

submit_sends-IsUpload_example :
    (parts : List (String × Field)) × ((submit_started (signed_in "investigator") filled).1
      ≡ some (on_request (signed_in "investigator") (Endpoints.upload_artifact parts)))
    × IsUpload "disk.img" filled.cases parts
submit_sends-IsUpload_example =
    submit_sends-IsUpload {s = filled} (signed_in "investigator") "disk.img" filled-Reach
      filled-CanSubmit refl

upload-Ends_example : Ends same_text filled (rejected (axios_error (some 413) "too large")) (
    submit_settled
      (rejected (axios_error (some 413) "too large"))
      (submit_started (signed_in "investigator") filled).0)
upload-Ends_example =
    upload-Ends same_text (signed_in "investigator") filled "disk.img"
      (rejected (axios_error (some 413) "too large")) refl cases_there.3
