-- ===== src/ReportPage/History.antt =====
-- The page as a function of all that happened on it.
use forensic_chain.Common.{
  String, Option, none, some, List, [], ◌∷◌, ◌++◌, ◌≡◌, refl, if◌then◌else◌, arith, ◌==◌, lookup,
  lookup-insert, ◌∙◌, ap, All,
}
use mathlib.Core.List.{reverse, reverse-cons, append_assoc}
use forensic_chain.Api.{Report, ReportVerification}
use forensic_chain.Http.{Reply, resolved, rejected}
use forensic_chain.ReportPage.{
  State, init, load_settled, generate_started, generate_settled, download_started, download_settled,
  verify_started, verify_settled,
}

pub data Event : Type 0 where
  loaded : Reply (List Report) → Event
  generating : String → Event
  generated : Reply Report → Event
  downloading : String → Event
  downloaded : Reply (Unit {0}) → Event
  verifying : String → Event
  verified : String → Reply ReportVerification → Event

unfoldable pub step : State → Event → State
step s (loaded r) = load_settled r s
step s (generating id) = generate_started id s
step s (generated r) = generate_settled r s
step s (downloading id) = download_started id s
step s (downloaded r) = download_settled r s
step s (verifying id) = verify_started id s
step s (verified id r) = verify_settled id r s

unfoldable pub run : State → List Event → State
run s [] = s
run s (e ∷ es) = run (step s e) es

-- The verdict that an event brings for a report, if any.
abbrev pub verdict_of : String → Event → Option ReportVerification
verdict_of id (verified other (resolved v)) = if other == id then some v else none
verdict_of id _ = none

-- The last verdict for a report in a history, or an earlier one.
pub last_verdict : String → List Event → Option ReportVerification → Option ReportVerification
last_verdict id [] v = v
last_verdict id (e ∷ es) v =
    last_verdict id es (elim (verdict_of id e) [ none ↦ v | some w ↦ some w ])

step-lookup :
    (id : String) (s : State) (e : Event)
    → lookup id (step s e).verifications
      ≡ elim (verdict_of id e) [ none ↦ lookup id s.verifications | some w ↦ some w ]
unfolding step load_settled generate_started generate_settled download_started download_settled
    verify_started verify_settled
step-lookup id s (loaded (resolved r)) = refl
step-lookup id s (loaded (rejected r)) = refl
step-lookup id s (generating g) = ground arith
step-lookup id s (generated (resolved r)) = refl
step-lookup id s (generated (rejected r)) = refl
step-lookup id s (downloading d) = refl
step-lookup id s (downloaded (resolved r)) = refl
step-lookup id s (downloaded (rejected r)) = refl
step-lookup id s (verifying d) = refl
step-lookup id s (verified other (resolved v)) =
    ground (arith, lookup-insert other id v s.verifications)
step-lookup id s (verified other (rejected r)) = refl

lookup-run :
    (id : String) (s : State) (es : List Event)
    → lookup id (run s es).verifications ≡ last_verdict id es (lookup id s.verifications)
unfolding run last_verdict
lookup-run id s [] = refl
lookup-run id s (e ∷ es) =
    lookup-run id (step s e) es ∙ ap (last_verdict id es) (step-lookup id s e)

-- Whatever else happened on the page, and in whatever order, the verification kept for a report is
-- the one of the last verification of that report that succeeded; with none, there is none.
pub lookup-run-init :
    (id : String) (es : List Event)
    → lookup id (run init es).verifications ≡ last_verdict id es none
unfolding lookup
lookup-run-init id es = lookup-run id init es

-- The reports that a history generated, oldest first.
pub generated_in : List Event → List Report
generated_in [] = []
generated_in (generated (resolved r) ∷ es) = r ∷ generated_in es
generated_in (_ ∷ es) = generated_in es

abbrev pub IsNoLoad : Event → Type 0
IsNoLoad (loaded r) = ⊥
IsNoLoad _ = Unit

generate_started-reports : (g : String) (s : State) → (generate_started g s).reports ≡ s.reports
unfolding generate_started
generate_started-reports g s = ground arith

run-reports :
    (es : List Event) (s : State)
    → All IsNoLoad es
    → (run s es).reports ≡ reverse (generated_in es) ++ s.reports
unfolding run step generated_in load_settled generate_started generate_settled download_started
    download_settled verify_started verify_settled
run-reports [] s h = refl
run-reports (loaded r ∷ es) s h = absurd h.0
run-reports (generating g ∷ es) s h =
    run-reports es (generate_started g s) h.1
    ∙ ap (λ l. reverse (generated_in es) ++ l) (generate_started-reports g s)
run-reports (generated (resolved r) ∷ es) s h =
    rw (run-reports es (generate_settled (resolved r) s) h.1) (rw reverse-cons (rw append_assoc))
run-reports (generated (rejected r) ∷ es) s h = run-reports es _ h.1
run-reports (downloading d ∷ es) s h = run-reports es _ h.1
run-reports (downloaded (resolved r) ∷ es) s h = run-reports es _ h.1
run-reports (downloaded (rejected r) ∷ es) s h = run-reports es _ h.1
run-reports (verifying d ∷ es) s h = run-reports es _ h.1
run-reports (verified d (resolved r) ∷ es) s h = run-reports es _ h.1
run-reports (verified d (rejected r) ∷ es) s h = run-reports es _ h.1

run-append : (s : State) (es fs : List Event) → run s (es ++ fs) ≡ run (run s es) fs
unfolding run
run-append s [] fs = refl
run-append s (e ∷ es) fs = run-append (step s e) es fs

-- Once the list of reports is loaded, the page lists exactly that list with the reports generated
-- since then before it, the newest first, whatever else happens in between; what was generated
-- before the list came is not kept beside it.
pub reports-run-init :
    (before after : List Event) (loaded_reports : List Report)
    → All IsNoLoad after
    → (run init (before ++ loaded (resolved loaded_reports) ∷ after)).reports
      ≡ reverse (generated_in after) ++ loaded_reports
unfolding run step load_settled
reports-run-init before after loaded_reports h =
    rw (run-append init before (loaded (resolved loaded_reports) ∷ after))
      (run-reports after (step (run init before) (loaded (resolved loaded_reports))) h)
