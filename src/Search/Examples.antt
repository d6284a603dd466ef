-- ===== src/Search/Examples.antt =====
-- Searches in two artifacts. The texts are in lower case already, so that the identity is a
-- `toLowerCase` for them.
use forensic_chain.Common.{String, List, [], ◌∷◌, ◌≡◌, ◌⊎◌, ◌↔◌, refl, Holds, filter}
use forensic_chain.Api.{Artifact}
use forensic_chain.Api.Examples.{artifact_of}
use forensic_chain.Search.{
  trim, includes, list_test, list_filtered, case_test, case_filtered, is_prefix, trim_start,
  trim_end, is_space,
}
use forensic_chain.Search.Laws.{InCase, InName, InType, Holds-list_filtered}

abbrev pub same_text : String → String
same_text s = s

abbrev pub two_artifacts : List Artifact
two_artifacts = artifact_of "a1" "disk.img" ∷ artifact_of "a2" "phone.bin" ∷ []

trimmed : trim "  disk \t" ≡ "disk"
unfolding trim trim_start trim_end is_space
trimmed = refl

one_found : list_filtered same_text two_artifacts " phone " ≡ artifact_of "a2" "phone.bin" ∷ []
unfolding list_filtered list_test includes is_prefix trim trim_start trim_end is_space filter
one_found = refl

-- The page of one case does not search the case number.
number_not_searched :
    (list_filtered same_text two_artifacts "2026" ≡ two_artifacts)
    × (case_filtered same_text two_artifacts "2026" ≡ [])
unfolding list_filtered list_test case_filtered case_test includes is_prefix trim trim_start
    trim_end is_space filter
number_not_searched = (refl, refl)

Holds-list_filtered_example :
    Holds (artifact_of "a2" "phone.bin") (list_filtered same_text two_artifacts " phone ") ↔ (
      Holds (artifact_of "a2" "phone.bin") two_artifacts
      × (InCase same_text refl " phone " (artifact_of "a2" "phone.bin")
          ⊎ InName same_text refl " phone " (artifact_of "a2" "phone.bin")
          ⊎ InType same_text refl " phone " (artifact_of "a2" "phone.bin")))
Holds-list_filtered_example =
    Holds-list_filtered same_text refl two_artifacts " phone " (artifact_of "a2" "phone.bin")
