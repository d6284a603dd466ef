-- ===== src/CasesPage/Laws.antt =====
-- What the page of a case asks for, and which rows it shows.
use forensic_chain.Common.{
  String, some, List, [], ◌∷◌, ◌≡◌, refl, ◌⊎◌, ◌↔◌, inl, inr, if◌then◌else◌, Holds, map, length,
  eqb, subst,
}
use forensic_chain.Api.{Artifact}
use forensic_chain.Http.{resolved}
use forensic_chain.Search.{case_filtered}
use forensic_chain.Search.Laws.{InName, InType, Holds-case_filtered}
use forensic_chain.CasesPage.{
  State, init, load_settled, set_query, Row, Table, skeleton, message, rows, row, loaded_table,
  view,
}

-- The texts that the box holds one after the other.
pub set_queries : List String → State → State
set_queries [] s = s
set_queries (q ∷ qs) s = set_queries qs (set_query q s)

abbrev pub last_query : String → List String → String
last_query q [] = q
last_query q (r ∷ rs) = last_query r rs

set_queries_lem :
    (qs : List String) (s : State) → set_queries qs s ≡ record s { query = last_query s.query qs }
unfolding set_queries set_query
set_queries_lem [] s = refl
set_queries_lem (q ∷ qs) s = set_queries_lem qs (set_query q s)

-- The rows that a table shows.
abbrev pub table_rows : Table → List Row
table_rows (skeleton n) = []
table_rows (message text) = []
table_rows (rows ws) = ws

module _ (to_lower locale_date : String → String) (lower_empty : to_lower "" ≡ "") where
  Holds-map :
      (w : Row) (xs : List Artifact)
      → Holds w (map (row to_lower locale_date) xs)
        ↔ ((a : Artifact) × Holds a xs × (w ≡ row to_lower locale_date a))
  Holds-map w [] = (λ h. absurd h, λ (a, held, e). absurd held)
  Holds-map w (a ∷ xs) = (
    λ h. elim h [
      | inl e ↦ (a, inl refl, e)
      | inr m ↦ let (b, held, e) = (Holds-map w xs).0 m in (b, inr held, e)
    ],
    λ (b, held, e). elim held [
      | inl same ↦ inl (subst (λ c. w ≡ row to_lower locale_date c) same e)
      | inr m ↦ inr ((Holds-map w xs).1 (b, m, e))
    ],
  )

  table_rows-loaded_table :
      (query : String) (xs : List Artifact)
      → table_rows (loaded_table to_lower locale_date query xs) ≡ map (row to_lower locale_date) xs
  unfolding loaded_table
  table_rows-loaded_table query [] = refl
  table_rows-loaded_table query (a ∷ xs) = refl

  -- Once the artifacts of the case are there, whatever was typed before and after, the table has a
  -- row exactly for each of them whose name or type the text in the box occurs in, up to case and
  -- surrounding white space, and the number shown is that of all of them.
  pub loaded_rows_iff :
      (case_id : String) (before after : List String) (artifacts : List Artifact)
      → let query = last_query (last_query "" before) after in
        let shown =
          view to_lower locale_date case_id
            (set_queries after (load_settled (resolved artifacts) (set_queries before init))) in
        (shown.count
          ≡ some (length artifacts, if eqb (length artifacts) 1 then "artifact" else "artifacts"))
        × ((w : Row)
            → Holds w (table_rows shown.table) ↔ (
                (a : Artifact) × Holds a artifacts
                × (InName to_lower lower_empty query a ⊎ InType to_lower lower_empty query a)
                × (w ≡ row to_lower locale_date a)))
  unfolding view load_settled
  loaded_rows_iff case_id before after artifacts =
      let query = last_query (last_query "" before) after in
      rw (set_queries_lem before init, set_queries_lem after _)
        (
          refl,
          λ w. rw (table_rows-loaded_table query (case_filtered to_lower artifacts query)) (
            (λ h.
                let (a, held, e) = (Holds-map w (case_filtered to_lower artifacts query)).0 h in
                let (old, found) =
                  (Holds-case_filtered to_lower lower_empty artifacts query a).0.0 held in
                (a, old, found, e)),
            λ (a, old, found, e). (Holds-map w (case_filtered to_lower artifacts query)).1 (
              a,
              (Holds-case_filtered to_lower lower_empty artifacts query a).0.1 (old, found),
              e,
            ),
          ),
        )
