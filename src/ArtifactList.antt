-- ===== src/ArtifactList.antt =====
-- forensic-ui/src/pages/ArtifactListPage.tsx: its state, the effect that loads the artifacts, the
-- search box, and what it renders. Styling is left out; what a class depends on is kept.
pub mod Laws
pub mod Examples
use Prim.Native.String.{◌++◌}
use forensic_chain.Common.{
  ℕ, String, Bool, true, false, Option, none, some, List, [], ◌∷◌, if◌then◌else◌, eqb, not, ◌&&◌,
  ◌||◌, is_truthy, is_some, is_text, length, map,
}
use forensic_chain.Api.{Artifact}
use forensic_chain.Http.{Reply, resolved, rejected}
use forensic_chain.Format.{Tone, format_size, format_date, status_tone}
use forensic_chain.Search.{list_filtered}

pub record State : Type 0 where
  pub artifacts : List Artifact
  pub loading : Bool
  pub error : Option String
  pub query : String

abbrev pub init : State
init = record { artifacts = []; loading = true; error = none; query = "" }

-- `.then(setArtifacts).catch(…).finally(…)` of the effect.
unfoldable pub load_settled : Reply (List Artifact) → State → State
load_settled (resolved artifacts) s = record s { artifacts = artifacts; loading = false }
load_settled (rejected err) s = record s {
  error = some "Failed to load artifacts. Please try again.";
  loading = false;
}

-- `onChange` of the search box.
unfoldable pub set_query : String → State → State
set_query query s = record s { query = query }

-- A row of the table, with the target of its link.
pub record Row : Type 0 where
  pub case_id : String
  pub file_name : String
  pub artifact_type : String
  pub size : String
  pub status : String
  pub tone : Tone
  pub uploaded : String
  pub link : String

-- The body of the table: placeholders, a message with or without the link to the upload page, or
-- rows.
pub data Table : Type 0 where
  skeleton : ℕ → Table
  message : String → Bool → Table
  rows : List Row → Table

pub record ListView : Type 0 where
  pub count : Option (ℕ × String)
  pub upload_link : Bool
  pub error : Option String
  pub table : Table

-- `artifacts.length === 1 ? 'artifact' : 'artifacts'`
abbrev pub plural : ℕ → String
plural n = if eqb n 1 then "artifact" else "artifacts"

module _ (to_lower locale_date : String → String) where
  unfoldable pub row : Artifact → Row
  row a = record {
    case_id = a.case_id;
    file_name = a.file_name;
    artifact_type = a.artifact_type;
    size = format_size a.file_size;
    status = a.status;
    tone = status_tone a.status;
    uploaded = format_date locale_date a.uploaded_at;
    link = "/artifacts/" ++ a.artifact_id;
  }

  -- The body of the table when nothing is loading.
  unfoldable pub loaded_table : Option String → String → List Artifact → Table
  loaded_table role query [] =
      message (if is_truthy query then "No artifacts match your filter." else "No artifacts yet.")
        (not (is_truthy query) && is_text role "investigator")
  loaded_table role query (a ∷ filtered) = rows (map row (a ∷ filtered))

  unfoldable pub view : Option String → State → ListView
  unfolding loaded_table
  view role s = record {
    count =
        if not s.loading && not (is_some s.error)
        then some (length s.artifacts, plural (length s.artifacts))
        else none;
    upload_link = is_text role "investigator" || is_text role "forensic_analyst";
    error = s.error;
    table =
        if s.loading
        then skeleton 5
        else loaded_table role s.query (list_filtered to_lower s.artifacts s.query);
  }
