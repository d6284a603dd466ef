-- ===== src/CasesPage.antt =====
-- forensic-ui/src/pages/CasesPage.tsx: its state, the effect that loads the artifacts of the case,
-- the search box, and what it renders.
pub mod Laws
pub mod Examples
use Prim.Native.String.{◌++◌}
use forensic_chain.Common.{
  ℕ, String, Bool, true, false, Option, none, some, List, [], ◌∷◌, if◌then◌else◌, eqb, not, ◌&&◌,
  is_truthy, is_some, length, map,
}
use forensic_chain.Api.{Artifact}
use forensic_chain.Api.Endpoints
use forensic_chain.Http.{Browser, HttpRequest, Reply, resolved, rejected, on_request}
use forensic_chain.Format.{Tone, format_size, format_date, status_tone}
use forensic_chain.Search.{case_filtered}

pub record State : Type 0 where
  pub artifacts : List Artifact
  pub loading : Bool
  pub error : Option String
  pub query : String

abbrev pub init : State
init = record { artifacts = []; loading = true; error = none; query = "" }

-- The request of the effect; `case_id` is the parameter of the route.
unfoldable pub load_started : Browser → String → Option HttpRequest
load_started b case_id =
    if not (is_truthy case_id)
    then none
    else some (on_request b (Endpoints.list_artifacts (some case_id)))

-- `.then(setArtifacts).catch(…).finally(…)` of the effect.
unfoldable pub load_settled : Reply (List Artifact) → State → State
load_settled (resolved artifacts) s = record s { artifacts = artifacts; loading = false }
load_settled (rejected err) s = record s {
  error = some "Failed to load artifacts for this case.";
  loading = false;
}

-- `onChange` of the search box.
unfoldable pub set_query : String → State → State
set_query query s = record s { query = query }

-- A row of the table, with the target of its link.
pub record Row : Type 0 where
  pub file_name : String
  pub artifact_type : String
  pub size : String
  pub status : String
  pub tone : Tone
  pub uploaded : String
  pub link : String

pub data Table : Type 0 where
  skeleton : ℕ → Table
  message : String → Table
  rows : List Row → Table

pub record CaseView : Type 0 where
  pub heading : String
  pub count : Option (ℕ × String)
  pub error : Option String
  pub table : Table

module _ (to_lower locale_date : String → String) where
  unfoldable pub row : Artifact → Row
  row a = record {
    file_name = a.file_name;
    artifact_type = a.artifact_type;
    size = format_size a.file_size;
    status = a.status;
    tone = status_tone a.status;
    uploaded = format_date locale_date a.uploaded_at;
    link = "/artifacts/" ++ a.artifact_id;
  }

  -- The body of the table when nothing is loading.
  unfoldable pub loaded_table : String → List Artifact → Table
  loaded_table query [] = message (
      if is_truthy query
      then "No artifacts match your filter."
      else "No artifacts in this case yet.")
  loaded_table query (a ∷ filtered) = rows (map row (a ∷ filtered))

  unfoldable pub view : String → State → CaseView
  unfolding loaded_table
  view case_id s = record {
    heading = case_id;
    count =
        if not s.loading && not (is_some s.error)
        then some
            (length s.artifacts, if eqb (length s.artifacts) 1 then "artifact" else "artifacts")
        else none;
    error = s.error;
    table =
        if s.loading
        then skeleton 4
        else loaded_table s.query (case_filtered to_lower s.artifacts s.query);
  }
