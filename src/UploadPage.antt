-- ===== src/UploadPage.antt =====
-- forensic-ui/src/pages/ArtifactUploadPage.tsx: the table of artifact types, the form, its submit
-- handler split where it waits for the upload, and the card of a success.
pub mod Form
pub mod Outcomes
pub mod Examples
use Prim.Native.String.{◌++◌ as concat}
use forensic_chain.Common.{
  ℕ, String, Bool, true, false, Option, none, some, List, [], ◌∷◌, ◌++◌, if◌then◌else◌, ◌==◌, ◌&&◌,
  ◌||◌, not, is_truthy, is_present, find, or_else, length, eqb,
}
use forensic_chain.Api.{Artifact, Case}
use forensic_chain.Api.Endpoints
use forensic_chain.Http.{
  Browser, HttpRequest, Field, text, file, Reply, resolved, rejected, Failure, status_of, is_status,
  on_request,
}
use forensic_chain.Format.{format_size}

abbrev pub artifact_types : List String
artifact_types =
    "MobileExtraction" ∷ "DiskImage" ∷ "MemoryDump" ∷ "NetworkCapture" ∷ "LogFile" ∷ "Other" ∷ []

-- An entry of the type guide, less its icon, description and examples.
pub record TypeInfo : Type 0 where
  pub type : String
  pub label : String

abbrev pub type_info : List TypeInfo
type_info =
    record { type = "MobileExtraction"; label = "Mobile Extraction" }
    ∷ record { type = "DiskImage"; label = "Disk Image" }
    ∷ record { type = "MemoryDump"; label = "Memory Dump" }
    ∷ record { type = "NetworkCapture"; label = "Network Capture" }
    ∷ record { type = "LogFile"; label = "Log File" }
    ∷ record { type = "Other"; label = "Other" }
    ∷ []

-- The text of the option for a type.
unfoldable pub type_label : String → String
type_label t = elim (find (λ i. i.type == t) type_info) [ none ↦ t | some i ↦ i.label ]

-- `TypeGuide`: the labels, each with whether it is highlighted.
unfoldable pub guide_from : String → List TypeInfo → List (String × Bool)
guide_from selected [] = []
guide_from selected (i ∷ is) = (i.label, i.type == selected) ∷ guide_from selected is

abbrev pub type_guide : String → List (String × Bool)
type_guide selected = guide_from selected type_info

-- `chosen` is the name of the file in the file input, if any.
pub record State : Type 0 where
  pub cases : List Case
  pub cases_loading : Bool
  pub case_id : String
  pub title : String
  pub artifact_type : String
  pub description : String
  pub chosen : Option String
  pub loading : Bool
  pub error : Option String
  pub result : Option Artifact

abbrev pub init : State
init = record {
  cases = [];
  cases_loading = true;
  case_id = "";
  title = "";
  artifact_type = "MobileExtraction";
  description = "";
  chosen = none;
  loading = false;
  error = none;
  result = none;
}

-- The effect, once the list of cases has settled; a failure is ignored.
unfoldable pub cases_settled : Reply (List Case) → State → State
cases_settled (resolved cases) s = record s { cases = cases; cases_loading = false }
cases_settled (rejected err) s = record s { cases_loading = false }

unfoldable pub reset_form : State → State
reset_form s = record s {
  case_id = "";
  title = "";
  artifact_type = "MobileExtraction";
  description = "";
  error = none;
  result = none;
  chosen = none;
}

-- The FormData of the handler.
unfoldable pub form_data : String → State → List (String × Field)
form_data name s =
    ("file", file name)
    ∷ ("case_id", text s.case_id)
    ∷ ("title", text s.title)
    ∷ ("artifact_type", text s.artifact_type)
    ∷ (if is_truthy s.description then ("description", text s.description) ∷ [] else [])

-- `handleSubmit` up to its `await`: the request, if one is made.
unfoldable pub submit_started : Browser → State → State × Option HttpRequest
unfolding form_data
submit_started b s = elim s.chosen [
  | none ↦ (record s { error = some "Please select a file." }, none)
  | some name ↦ (
    record s { loading = true; error = none },
    some (on_request b (Endpoints.upload_artifact (form_data name s))),
  )
]

-- The text of the `catch` clause.
unfoldable pub upload_error : Option ℕ → String
upload_error status =
    if is_status status 503 || is_status status 502
    then "The ingestion service is temporarily unavailable. Please try again in a moment."
    else if is_status status 500
    then "An internal server error occurred. Please try again."
    else if is_status status 413
    then "File is too large to upload."
    else if is_status status 403
    then "You do not have permission to upload to this case."
    else if is_status status 400
    then "Invalid request. Please check the form fields and try again."
    else "Upload failed. Please try again."

-- `handleSubmit` from its `await` on.
unfoldable pub submit_settled : Reply Artifact → State → State
submit_settled (resolved artifact) s = record s { result = some artifact; loading = false }
submit_settled (rejected err) s = record s {
  error = some (upload_error (status_of err));
  loading = false;
}

-- The lines of `SuccessCard`.
unfoldable pub card_fields : (String → String) → Artifact → List (String × String)
card_fields locale_time a =
    ("Artifact ID", a.artifact_id)
    ∷ ("Case ID", a.case_id)
    ∷ ("File", concat a.file_name (concat "  (" (concat (format_size a.file_size) ")")))
    ∷ (elim a.uploaded_at [
      | none ↦ []
      | some at ↦ if is_truthy at then ("Ingested at", locale_time at) ∷ [] else []
    ])

-- What the page renders: the card of the result, or the form with its error, the first option of
-- the case selector, its other options, and the label and state of the button.
pub data UploadView : Type 0 where
  card : String → List (String × String) → String → UploadView
  the_form : Option String → String → Bool → List (String × String) → Bool → String → UploadView

abbrev case_options : List Case → List (String × String)
case_options [] = []
case_options (c ∷ cs) =
    (c.case_number, concat c.case_number (concat " — " c.title)) ∷ case_options cs

unfoldable pub view : (String → String) → State → UploadView
unfolding card_fields
view locale_time s = elim s.result [
  | some artifact ↦
      card artifact.status (card_fields locale_time artifact)
        (concat "/artifacts/" artifact.artifact_id)
  | none ↦
      the_form s.error
        (if s.cases_loading
          then "Loading cases…"
          else if eqb (length s.cases) 0
          then "No open cases — ask admin to create one"
          else "Select a case…")
        s.cases_loading (case_options s.cases) s.loading
        (if s.loading then "Uploading…" else "Upload artifact")
]
