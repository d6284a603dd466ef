-- ===== src/CasesPage/Examples.antt =====
-- The page of a case with two artifacts.
use forensic_chain.Common.{none, some, [], ◌∷◌, ◌≡◌, ◌⊎◌, ◌↔◌, refl, Holds}
use forensic_chain.Api.{Artifact}
use forensic_chain.Http.{resolved}
use forensic_chain.Auth.Examples.{signed_in}
use forensic_chain.Search.Examples.{same_text, two_artifacts}
use forensic_chain.Search.Laws.{InName, InType}
use forensic_chain.CasesPage.{init, load_started, load_settled, Row, row, view}
use forensic_chain.CasesPage.Laws.{set_queries, table_rows, loaded_rows_iff}

nothing_without_case : load_started (signed_in "investigator") "" ≡ none
unfolding load_started
nothing_without_case = refl

loaded_rows_iff_example :
    let shown =
      view same_text same_text "CASE-2026-001" (
        set_queries ("phone" ∷ []) (load_settled (resolved two_artifacts) (set_queries [] init))) in
    (shown.count ≡ some (2, "artifacts"))
    × ((w : Row)
        → Holds w (table_rows shown.table) ↔ (
            (a : Artifact) × Holds a two_artifacts
            × (InName same_text refl "phone" a ⊎ InType same_text refl "phone" a)
            × (w ≡ row same_text same_text a)))
loaded_rows_iff_example =
    loaded_rows_iff same_text same_text refl "CASE-2026-001" [] ("phone" ∷ []) two_artifacts
