-- ===== src/DetailPage/Access.antt =====
-- The link of the page to the reports, against the route that it leads to.
use forensic_chain.Common.{String, true, some, ◌≡◌, refl, ◌↔◌, eq_iff, Option-cases, inl, inr}
use forensic_chain.Api.{Artifact}
use forensic_chain.Routes.{reports}
use forensic_chain.Routes.Access.{MayView}
use forensic_chain.DetailPage.{State, view}

-- The page has its link to the reports exactly when its artifact is there and the role is one that
-- the route of the reports admits.
pub report_link_iff :
    (locale_time : String → String) (role : String) (s : State)
    → ((view locale_time (some role) s).report_link ≡ true)
      ↔ ((a : Artifact) × (s.artifact ≡ some a) × MayView reports role)
unfolding view
report_link_iff locale_time role s = elim (Option-cases s.artifact) [
  | inl missing ↦ rw missing ((λ e. cc), λ (a, e, m). cc)
  | inr (a, there) ↦ rw there (
    (λ e. (a, refl, (eq_iff role "legal_reviewer").0 e)),
    λ (b, e, m). (eq_iff role "legal_reviewer").1 m,
  )
]
