-- ===== src/ReportPage/Examples.antt =====
-- A page on which a report was generated and verified.
use forensic_chain.Common.{String, false, some, List, [], ◌∷◌, ◌++◌, ◌≡◌, refl}
use mathlib.Core.List.{reverse}
use forensic_chain.Api.Examples.{report_of, verdict_on}
use forensic_chain.Http.{resolved, rejected, other}
use forensic_chain.ReportPage.{
  init, view, load_settled, verify_started, verify_settled, generate_started, generate_settled,
}
use forensic_chain.ReportPage.History.{
  Event, loaded, generating, generated, downloading, verifying, verified, step, run, generated_in,
  reports-run-init,
}
use forensic_chain.ReportPage.Rendering.{ListsReports, view-ListsReports}

abbrev pub same_text : String → String
same_text s = s

abbrev history : List Event
history =
    loaded (resolved (report_of "r1" ∷ []))
    ∷ verifying "r1"
    ∷ generating "a1"
    ∷ verified "r1" (resolved (verdict_on "r1" false))
    ∷ generated (resolved (report_of "r2"))
    ∷ verifying "r2"
    ∷ verified "r2" (rejected other)
    ∷ []

error_kept : (run init history).error ≡ some "Verification failed"
unfolding run step load_settled verify_started verify_settled generate_started generate_settled
error_kept = refl

history_idle : (run init history).loading ≡ false
unfolding run step load_settled verify_started verify_settled generate_started generate_settled
history_idle = refl

view-ListsReports_example :
    ListsReports same_text history
      (run init history).reports
      (view same_text (run init history) "a1").listing
view-ListsReports_example = view-ListsReports same_text "a1" history history_idle

reports-run-init_example :
    (run init (
      (generated (resolved (report_of "r0")) ∷ [])
      ++ loaded (resolved (report_of "r1" ∷ []))
        ∷ downloading "r1"
        ∷ generated (resolved (report_of "r2"))
        ∷ [])).reports
    ≡ reverse (generated_in (downloading "r1" ∷ generated (resolved (report_of "r2")) ∷ []))
      ++ (report_of "r1" ∷ [])
reports-run-init_example =
    reports-run-init (generated (resolved (report_of "r0")) ∷ [])
      (downloading "r1" ∷ generated (resolved (report_of "r2")) ∷ []) (report_of "r1" ∷ [])
      (tt, (tt, tt))
