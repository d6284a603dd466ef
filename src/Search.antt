-- ===== src/Search.antt =====
-- The text search of the lists: the `filtered` memo of ArtifactListPage.tsx and of CasesPage.tsx, and
-- the string methods that it calls. `toLowerCase` is a parameter.
pub mod Occurs
pub mod Laws
pub mod Examples
use Prim.Native.Char.{code}
use Prim.Native.String
use forensic_chain.Common.{
  ℕ, String, Bool, true, false, Option, none, some, List, if◌then◌else◌, ltb, eqb, not, ◌&&◌, ◌||◌,
  is_truthy, filter, ◌==◌,
}
use forensic_chain.Api.{Artifact}

-- White space and line terminators of ECMAScript.
unfoldable pub is_space : ℕ → Bool
is_space c =
    (not (ltb c 9) && not (ltb 13 c))
    || eqb c 32
    || eqb c 160
    || eqb c 5760
    || (not (ltb c 8192) && not (ltb 8202 c))
    || eqb c 8232
    || eqb c 8233
    || eqb c 8239
    || eqb c 8287
    || eqb c 12288
    || eqb c 65279

unfoldable pub trim_start : String → String
trim_start String.[] = ""
trim_start (String.◌∷◌ c s) =
    let rest = trim_start s in if is_space (code c) then rest else String.◌∷◌ c s

unfoldable pub trim_end : String → String
trim_end String.[] = ""
trim_end (String.◌∷◌ c s) =
    let rest = trim_end s in if rest == "" && is_space (code c) then "" else String.◌∷◌ c rest

-- `s.trim()`
unfoldable pub trim : String → String
unfolding trim_start trim_end is_space
trim s = trim_end (trim_start s)

-- `s.startsWith(q)`
unfoldable pub is_prefix : String → String → Bool
is_prefix String.[] s = true
is_prefix (String.◌∷◌ d q) String.[] = false
is_prefix (String.◌∷◌ d q) (String.◌∷◌ c s) = eqb (code c) (code d) && is_prefix q s

-- `s.includes(q)`
unfoldable pub includes : String → String → Bool
unfolding is_prefix
includes String.[] q = is_prefix q ""
includes (String.◌∷◌ c s) q = is_prefix q (String.◌∷◌ c s) || includes s q

module _ (to_lower : String → String) where
  -- The test of ArtifactListPage, on the trimmed query in lower case.
  unfoldable pub list_test : String → Artifact → Bool
  unfolding includes
  list_test q a =
      includes (to_lower a.case_id) q
      || includes (to_lower a.file_name) q
      || includes (to_lower a.artifact_type) q

  -- `filtered` of ArtifactListPage
  unfoldable pub list_filtered : List Artifact → String → List Artifact
  unfolding trim list_test filter
  list_filtered artifacts query =
      if not (is_truthy (trim query))
      then artifacts
      else filter (list_test (to_lower (trim query))) artifacts

  -- The test of CasesPage: all artifacts of the page are of one case.
  unfoldable pub case_test : String → Artifact → Bool
  unfolding includes
  case_test q a = includes (to_lower a.file_name) q || includes (to_lower a.artifact_type) q

  -- `filtered` of CasesPage
  unfoldable pub case_filtered : List Artifact → String → List Artifact
  unfolding trim case_test filter
  case_filtered artifacts query =
      if not (is_truthy (trim query))
      then artifacts
      else filter (case_test (to_lower (trim query))) artifacts
