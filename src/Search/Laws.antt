-- ===== src/Search/Laws.antt =====
-- What the search of the two lists finds.
use forensic_chain.Common.{
  String, Bool, true, false, List, [], ◌∷◌, ◌≡◌, refl, sym, ap, ◌⊎◌, ◌↔◌, inl, inr, ◌||◌, arith,
  Bool-cases, filter, Holds, Holds-filter, eq_iff, ◌==◌,
}
use forensic_chain.Api.{Artifact}
use forensic_chain.Search.{trim, includes, list_test, list_filtered, case_test, case_filtered}
use forensic_chain.Search.Occurs.{Occurs, includes_iff, includes-empty}

filter_all : {A : Type 0} (p : A → Bool) (xs : List A) → ((a : A) → p a ≡ true) → filter p xs ≡ xs
unfolding filter
filter_all p [] h = refl
filter_all p (x ∷ xs) h = rw (h x) (ap (λ l. x ∷ l) (filter_all p xs h))

-- `toLowerCase` changes no letter of a text that has none.
module _ (to_lower : String → String) (lower_empty : to_lower "" ≡ "") where
  list_test_blank : (a : Artifact) → list_test to_lower "" a ≡ true
  unfolding list_test
  list_test_blank a = rw (includes-empty (to_lower a.case_id))

  case_test_blank : (a : Artifact) → case_test to_lower "" a ≡ true
  unfolding case_test
  case_test_blank a = rw (includes-empty (to_lower a.file_name))

  -- The early return for a blank query of ArtifactListPage only saves work: for every query the
  -- list shown is the one that filtering by the trimmed query in lower case gives, in its order.
  pub list_filtered-eq-filter :
      (artifacts : List Artifact) (query : String)
      → list_filtered to_lower artifacts query
        ≡ filter (list_test to_lower (to_lower (trim query))) artifacts
  unfolding list_filtered
  list_filtered-eq-filter artifacts query = elim (Bool-cases (trim query == "")) [
    | inl blank ↦
        rw ((eq_iff (trim query) "").0 blank)
          (rw lower_empty (sym (filter_all (list_test to_lower "") artifacts list_test_blank)))
    | inr some_text ↦ rw some_text
  ]

  -- The same for CasesPage.
  pub case_filtered-eq-filter :
      (artifacts : List Artifact) (query : String)
      → case_filtered to_lower artifacts query
        ≡ filter (case_test to_lower (to_lower (trim query))) artifacts
  unfolding case_filtered
  case_filtered-eq-filter artifacts query = elim (Bool-cases (trim query == "")) [
    | inl blank ↦
        rw ((eq_iff (trim query) "").0 blank)
          (rw lower_empty (sym (filter_all (case_test to_lower "") artifacts case_test_blank)))
    | inr some_text ↦ rw some_text
  ]

  -- Whether an artifact answers a query, by occurrence of the text.
  abbrev pub InCase : String → Artifact → Type 0
  InCase query a = Occurs (to_lower (trim query)) (to_lower a.case_id)

  abbrev pub InName : String → Artifact → Type 0
  InName query a = Occurs (to_lower (trim query)) (to_lower a.file_name)

  abbrev pub InType : String → Artifact → Type 0
  InType query a = Occurs (to_lower (trim query)) (to_lower a.artifact_type)

  or_cases : (b c : Bool) → ((b || c) ≡ true) ↔ ((b ≡ true) ⊎ (c ≡ true))
  or_cases true c = (λ _. inl refl, λ _. refl)
  or_cases false c = (λ e. inr e, λ h. ground arith)

  case_test_iff :
      (query : String) (a : Artifact)
      → (case_test to_lower (to_lower (trim query)) a ≡ true) ↔ (InName query a ⊎ InType query a)
  unfolding case_test
  case_test_iff query a = (
    λ e. elim ((or_cases _ _).0 e) [
      | inl n ↦ inl ((includes_iff _ _).0 n)
      | inr t ↦ inr ((includes_iff _ _).0 t)
    ],
    λ h.
        (or_cases _ _).1
          (elim h [ inl n ↦ inl ((includes_iff _ _).1 n) | inr t ↦ inr ((includes_iff _ _).1 t) ]),
  )

  list_test_split :
      (q : String) (a : Artifact)
      → list_test to_lower q a ≡ (includes (to_lower a.case_id) q || case_test to_lower q a)
  unfolding list_test case_test
  list_test_split q a = ground arith

  list_test_iff :
      (query : String) (a : Artifact)
      → (list_test to_lower (to_lower (trim query)) a ≡ true)
        ↔ (InCase query a ⊎ InName query a ⊎ InType query a)
  list_test_iff query a = rw (list_test_split (to_lower (trim query)) a) (
      (
        λ e. elim ((or_cases _ _).0 e) [
          | inl c ↦ inl ((includes_iff _ _).0 c)
          | inr r ↦ inr ((case_test_iff query a).0 r)
        ],
        λ h. (or_cases _ _).1 (elim h [
          | inl c ↦ inl ((includes_iff _ _).1 c)
          | inr r ↦ inr ((case_test_iff query a).1 r)
        ]),
      ))

  -- The list of ArtifactListPage holds an artifact exactly when it was loaded and the trimmed query
  -- occurs, up to case, in its case number, its file name or its type; a blank query occurs in all.
  pub Holds-list_filtered :
      (artifacts : List Artifact) (query : String) (a : Artifact)
      → Holds a (list_filtered to_lower artifacts query)
        ↔ (Holds a artifacts × (InCase query a ⊎ InName query a ⊎ InType query a))
  Holds-list_filtered artifacts query a = rw (list_filtered-eq-filter artifacts query) (
    (λ h. let (old, ok) = (Holds-filter _ artifacts a).0 h in (old, (list_test_iff query a).0 ok)),
    λ (old, m). (Holds-filter _ artifacts a).1 (old, (list_test_iff query a).1 m),
  )

  -- Of the same artifacts, the page of one case shows, for every query, only what the list of all
  -- cases would show, and just those artifacts whose name or type the query occurs in.
  pub Holds-case_filtered :
      (artifacts : List Artifact) (query : String) (a : Artifact)
      → (Holds a (case_filtered to_lower artifacts query)
          ↔ (Holds a artifacts × (InName query a ⊎ InType query a)))
        × (Holds a (case_filtered to_lower artifacts query)
            → Holds a (list_filtered to_lower artifacts query))
  Holds-case_filtered artifacts query a =
      let here : Holds a (case_filtered to_lower artifacts query)
          ↔ (Holds a artifacts × (InName query a ⊎ InType query a)) =
        rw (case_filtered-eq-filter artifacts query) (
          (λ h.
              let (old, ok) = (Holds-filter _ artifacts a).0 h in
              (old, (case_test_iff query a).0 ok)),
          λ (old, m). (Holds-filter _ artifacts a).1 (old, (case_test_iff query a).1 m),
        ) in
      (here, λ h. let (old, m) = here.0 h in (Holds-list_filtered artifacts query a).1 (old, inr m))
