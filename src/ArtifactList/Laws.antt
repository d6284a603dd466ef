-- ===== src/ArtifactList/Laws.antt =====
-- The list under every order of typing and loading, and its upload link against the routes.
use forensic_chain.Common.{
  String, Option, none, some, List, [], ◌∷◌, ◌≡◌, refl, arith, contains, eq_iff, length,
}
use forensic_chain.Api.{Artifact}
use forensic_chain.Http.{Reply, resolved, rejected}
use forensic_chain.Search.{list_filtered}
use forensic_chain.Routes.{uploaders}
use forensic_chain.ArtifactList.{
  State, init, load_settled, set_query, skeleton, ListView, plural, loaded_table, view,
}

-- The texts that the box holds one after the other.
pub set_queries : List String → State → State
set_queries [] s = s
set_queries (q ∷ qs) s = set_queries qs (set_query q s)

abbrev pub last_query : String → List String → String
last_query q [] = q
last_query q (r ∷ rs) = last_query r rs

set_queries_lem :
    (qs : List String) (s : State) → set_queries qs s ≡ record s { query = last_query s.query qs }
unfolding set_queries set_query
set_queries_lem [] s = refl
set_queries_lem (q ∷ qs) s = set_queries_lem qs (set_query q s)

module _ (to_lower locale_date : String → String) (role : Option String) where
  -- What the page shows once the load has settled and the box holds `query`.
  abbrev pub Outcome : Reply (List Artifact) → String → ListView → Type 0
  Outcome (resolved artifacts) query v =
      (v.count ≡ some (length artifacts, plural (length artifacts)))
      × (v.error ≡ none)
      × (v.table
          ≡ loaded_table to_lower locale_date role query (list_filtered to_lower artifacts query))
  Outcome (rejected err) query v =
      (v.count ≡ none)
      × (v.error ≡ some "Failed to load artifacts. Please try again.")
      × (v.table ≡ loaded_table to_lower locale_date role query (list_filtered to_lower [] query))

  -- Whatever was typed before the load settled and after it, the page ends with what the reply and
  -- the last text say: on success the number of all artifacts, no error, and the filtered rows; on
  -- failure the error, no number, and the table of an empty list.
  pub view_of_load :
      (before after : List String) (r : Reply (List Artifact))
      → Outcome r (last_query (last_query "" before) after) (
          view to_lower locale_date role
            (set_queries after (load_settled r (set_queries before init))))
  unfolding view load_settled
  view_of_load before after (resolved artifacts) =
      rw (set_queries_lem before init, set_queries_lem after _) (refl, refl, refl)
  view_of_load before after (rejected err) =
      rw (set_queries_lem before init, set_queries_lem after _) (refl, refl, refl)

  -- Until then it shows placeholders, whatever is typed.
  pub view_while_loading :
      (before : List String)
      → (view to_lower locale_date role (set_queries before init)).table ≡ skeleton 5
  unfolding view
  view_while_loading before = rw (set_queries_lem before init)

-- The page shows its link to the upload page exactly to the roles that the route of that page
-- admits, whatever its state.
pub upload_link-eq-contains :
    (to_lower locale_date : String → String) (role : String) (s : State)
    → (view to_lower locale_date (some role) s).upload_link ≡ contains uploaders role
unfolding view contains
upload_link-eq-contains to_lower locale_date role s = ground (
  arith,
  eq_iff role "investigator",
  eq_iff "investigator" role,
  eq_iff role "forensic_analyst",
  eq_iff "forensic_analyst" role,
)
