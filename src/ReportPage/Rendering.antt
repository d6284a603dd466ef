-- ===== src/ReportPage/Rendering.antt =====
-- The rows of the page against its history.
use forensic_chain.Common.{
  ℕ, suc, String, false, Option, none, some, List, [], ◌∷◌, ◌≡◌, refl, eqb, lookup, subst, length,
}
use forensic_chain.Api.{Report, ReportVerification}
use forensic_chain.ReportPage.{
  State, init, Panel, Row, Listing, none_yet, listing, panel_for, panel_of, rows_from, list_reports,
  view,
}
use forensic_chain.ReportPage.History.{Event, run, last_verdict, lookup-run-init}

module _ (locale_time : String → String) where
  -- The panel for a verdict.
  abbrev pub PanelFor : Option ReportVerification → Option Panel → Type 0
  PanelFor none none = Unit
  PanelFor (some v) (some p) =
      (p.valid ≡ v.report_valid)
      × (p.stored_hash ≡ v.stored_hash)
      × (p.current_hash ≡ v.current_hash)
      × (p.verified_at ≡ locale_time v.verified_at)
  PanelFor _ _ = ⊥

  -- One row for each report, in order: the first alone is marked as the latest, and each has the
  -- panel of the last verdict on its report.
  abbrev pub RowsFor : List Event → ℕ → List Report → List Row → Type 0
  RowsFor es idx [] [] = Unit
  RowsFor es idx (r ∷ rs) (w ∷ ws) =
      (w.report_id ≡ r.report_id)
      × (w.latest ≡ eqb idx 0)
      × PanelFor (last_verdict r.report_id es none) w.panel
      × RowsFor es (suc idx) rs ws
  RowsFor es idx _ _ = ⊥

  panel_for-PanelFor : (v : Option ReportVerification) → PanelFor v (panel_for locale_time v)
  panel_for-PanelFor none = tt
  panel_for-PanelFor (some v) = (refl, refl, refl, refl)

  panel-PanelFor :
      (s : State) (id : String) → PanelFor (lookup id s.verifications) (panel_of locale_time s id)
  unfolding panel_of
  panel-PanelFor s id = panel_for-PanelFor (lookup id s.verifications)

  rows-RowsFor :
      (es : List Event) (idx : ℕ) (rs : List Report)
      → RowsFor es idx rs (rows_from locale_time (run init es) idx rs)
  unfolding rows_from
  rows-RowsFor es idx [] = tt
  rows-RowsFor es idx (r ∷ rs) = (
    refl,
    refl,
    subst (λ v. PanelFor v (panel_of locale_time (run init es) r.report_id))
        (lookup-run-init r.report_id es) (panel-PanelFor (run init es) r.report_id),
    rows-RowsFor es (suc idx) rs,
  )

  abbrev pub ListsReports : List Event → List Report → Listing → Type 0
  ListsReports es [] l = l ≡ none_yet
  ListsReports es (r ∷ rs) l =
      (rows : List Row) × (l ≡ listing (length (r ∷ rs)) rows) × RowsFor es 0 (r ∷ rs) rows

  -- Whatever happened on the page, once it is not loading it shows a row for each report, in order,
  -- under their number; only the first row is marked as the latest, and each row shows the verdict of
  -- the last successful verification of its report, or no verdict if there was none. With no report it
  -- says so.
  pub view-ListsReports :
      (artifact_id : String) (es : List Event)
      → (run init es).loading ≡ false
      → ListsReports es (run init es).reports (view locale_time (run init es) artifact_id).listing
  unfolding view
  view-ListsReports artifact_id es idle = rw idle (go (run init es).reports)
    where
      go : (rs : List Report) → ListsReports es rs (list_reports locale_time (run init es) rs)
      go [] = refl
      go (r ∷ rs) = (_, refl, rows-RowsFor es 0 (r ∷ rs))
