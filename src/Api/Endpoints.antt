-- ===== src/Api/Endpoints.antt =====
-- The requests that the functions of forensic-ui/src/api make.
use Prim.Native.String.{◌++◌}
use forensic_chain.Common.{String, Option, none, some, List, [], ◌∷◌, if◌then◌else◌, is_truthy}
use forensic_chain.Http.{
  get, post, patch, delete, Field, text, file, empty, json, form, HttpRequest, client,
}
use forensic_chain.Api.{CreateUserBody}

-- A call with a FormData, which gives its own content type.
abbrev multipart : String → List (String × Field) → HttpRequest
multipart url parts = record (client post url (form parts)) { content_type = "multipart/form-data" }

-- A call for a file.
abbrev blob : String → HttpRequest
blob url = record (client get url empty) { response_type = some "blob" }

-- api/auth.ts
abbrev pub login : String → String → HttpRequest
login username password =
    client post "/auth/login"
      (json (("username", text username) ∷ ("password", text password) ∷ []))

-- api/admin.ts
abbrev pub get_users : HttpRequest
get_users = client get "/admin/users" empty

abbrev pub create_user : CreateUserBody → HttpRequest
create_user body = client post "/admin/users" (
    json (
      ("username", text body.username)
      ∷ ("password", text body.password)
      ∷ ("role", text body.role)
      ∷ []))

abbrev pub delete_user : String → HttpRequest
delete_user id = client delete ("/admin/users/" ++ id) empty

-- api/cases.ts
abbrev pub list_cases : HttpRequest
list_cases = client get "/cases" empty

abbrev pub list_admin_cases : HttpRequest
list_admin_cases = client get "/admin/cases" empty

abbrev optional_text : String → Option String → List (String × Field)
optional_text key none = []
optional_text key (some value) = (key, text value) ∷ []

abbrev pub create_case : String → String → Option String → HttpRequest
create_case case_number title description = client post "/admin/cases" (
    json (
      ("case_number", text case_number)
      ∷ ("title", text title)
      ∷ optional_text "description" description))

abbrev pub update_case_status : String → String → HttpRequest
update_case_status case_id status =
    client patch ("/admin/cases/" ++ case_id) (json (("status", text status) ∷ []))

abbrev pub list_assignments : String → HttpRequest
list_assignments case_id = client get ("/admin/cases/" ++ (case_id ++ "/assignments")) empty

abbrev pub create_assignment : String → String → String → HttpRequest
create_assignment case_id username role_in_case =
    client post ("/admin/cases/" ++ (case_id ++ "/assignments"))
      (json (("username", text username) ∷ ("role_in_case", text role_in_case) ∷ []))

abbrev pub delete_assignment : String → String → HttpRequest
delete_assignment case_id assignment_id =
    client delete ("/admin/cases/" ++ (case_id ++ ("/assignments/" ++ assignment_id))) empty

-- api/custody.ts
abbrev pub get_timeline : String → HttpRequest
get_timeline artifact_id = client get ("/custody/" ++ (artifact_id ++ "/timeline")) empty

-- api/evidence.ts
abbrev pub get_artifact : String → HttpRequest
get_artifact id = client get ("/evidence/" ++ id) empty

abbrev pub upload_artifact : List (String × Field) → HttpRequest
upload_artifact form_data = multipart "/evidence" form_data

abbrev pub verify_artifact : String → String → HttpRequest
verify_artifact id chosen =
    multipart ("/evidence/" ++ (id ++ "/verify")) (("file", file chosen) ∷ [])

abbrev case_params : Option String → List (String × String)
case_params none = []
case_params (some case_id) = if is_truthy case_id then ("case_id", case_id) ∷ [] else []

abbrev pub list_artifacts : Option String → HttpRequest
list_artifacts case_id = record (client get "/evidence" empty) { params = case_params case_id }

abbrev pub download_artifact : String → HttpRequest
download_artifact id = blob ("/evidence/" ++ (id ++ "/download"))

-- api/ledger.ts
abbrev pub get_ledger_records : String → HttpRequest
get_ledger_records case_id = client get ("/ledger/records/" ++ case_id) empty

abbrev pub validate_ledger_chain : String → HttpRequest
validate_ledger_chain case_id = client get ("/ledger/validate/" ++ case_id) empty

-- api/reports.ts
abbrev pub list_reports_by_artifact : String → HttpRequest
list_reports_by_artifact artifact_id = client get ("/reports/by-artifact/" ++ artifact_id) empty

abbrev pub generate_report : String → HttpRequest
generate_report artifact_id = client post ("/reports/" ++ artifact_id) empty

abbrev pub get_report : String → HttpRequest
get_report report_id = client get ("/reports/" ++ report_id) empty

abbrev pub verify_report : String → HttpRequest
verify_report report_id = client post ("/reports/" ++ (report_id ++ "/verify")) empty

abbrev pub download_report : String → HttpRequest
download_report report_id = blob ("/reports/" ++ (report_id ++ "/download"))

-- The name under which a downloaded report is saved.
abbrev pub report_file_name : String → String
report_file_name report_id = "report-" ++ (report_id ++ ".pdf")
