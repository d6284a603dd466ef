-- ===== src/Dashboard.antt =====
-- forensic-ui/src/pages/DashboardPage.tsx: its state, its effect, and what it renders. Icons and
-- colours are left out, but for that of the number of failures.
pub mod Numbers
pub mod Actions
pub mod Examples
use Prim.Native.String.{◌++◌ as concat}
use forensic_chain.Common.{
  ℕ, ◌-◌, String, Bool, true, false, Option, none, some, List, [], ◌∷◌, ◌++◌, if◌then◌else◌, ltb,
  ◌==◌, ◌&&◌, ◌||◌, not, is_text, length, filter, take, eqb,
}
use forensic_chain.Api.{Artifact, Case}
use forensic_chain.Http.{Reply, resolved, rejected}

pub record State : Type 0 where
  pub cases : List Case
  pub artifacts : List Artifact
  pub loading : Bool

abbrev pub init : State
init = record { cases = []; artifacts = []; loading = true }

-- What the effect waits for: the list of all cases for an admin, or both lists, of which either
-- failure is a failure.
pub data Loaded : Type 0 where
  admin_cases : List Case → Loaded
  both : List Case → List Artifact → Loaded

unfoldable pub load_settled : Reply Loaded → State → State
load_settled (resolved (admin_cases cases)) s = record s { cases = cases; loading = false }
load_settled (resolved (both cases artifacts)) s = record s {
  cases = cases;
  artifacts = artifacts;
  loading = false;
}
load_settled (rejected err) s = record s { loading = false }

-- `xs.filter((x) => x.status === status).length`
unfoldable pub artifacts_with : String → List Artifact → ℕ
unfolding filter
artifacts_with status artifacts = length (filter (λ a. a.status == status) artifacts)

unfoldable pub cases_with : String → List Case → ℕ
unfolding filter
cases_with status cases = length (filter (λ c. c.status == status) cases)

-- The cards; the last one of the second kind is red when its number is positive.
pub data Stats : Type 0 where
  skeleton : ℕ → Stats
  for_admin : ℕ → ℕ → ℕ → Stats
  for_member : ℕ → ℕ → ℕ → ℕ → ℕ → Bool → Stats

unfoldable pub stats : Bool → State → Stats
unfolding artifacts_with cases_with
stats is_admin s =
    if s.loading
    then skeleton 5
    else if is_admin
    then for_admin (length s.cases) (cases_with "OPEN" s.cases) (cases_with "CLOSED" s.cases)
    else for_member (length s.cases) (length s.artifacts) (artifacts_with "INGESTED" s.artifacts)
        (artifacts_with "PENDING" s.artifacts) (artifacts_with "INGESTION_FAILED" s.artifacts)
        (ltb 0 (artifacts_with "INGESTION_FAILED" s.artifacts))

pub record CaseRow : Type 0 where
  pub case_number : String
  pub title : String
  pub created : String
  pub status : String
  pub link : Option String

unfoldable pub case_rows : (String → String) → Bool → List Case → List CaseRow
case_rows locale_date is_admin [] = []
case_rows locale_date is_admin (c ∷ cs) =
    record {
      case_number = c.case_number;
      title = c.title;
      created = locale_date c.created_at;
      status = c.status;
      link = if not is_admin then some (concat "/cases/" c.case_number) else none;
    }
    ∷ case_rows locale_date is_admin cs

-- The list of cases: a message, or the first rows and the number of those left out.
pub data CaseList : Type 0 where
  none_found : CaseList
  listing : List CaseRow → Option ℕ → CaseList

unfoldable pub case_list : (String → String) → Bool → State → CaseList
unfolding case_rows take
case_list locale_date is_admin s =
    if not s.loading && eqb (length s.cases) 0
    then none_found
    else listing (case_rows locale_date is_admin (take 8 s.cases))
        (if ltb 8 (length s.cases) then some (length s.cases - 8) else none)

-- The targets of the quick actions.
unfoldable pub quick_actions : Option String → List String
quick_actions role =
    (if is_text role "admin" then "/admin/users" ∷ [] else [])
    ++ (if is_text role "investigator" || is_text role "forensic_analyst"
        then "/artifacts/upload" ∷ []
        else [])
    ++ (if not (is_text role "admin") then "/artifacts" ∷ [] else [])

-- `ROLE_META`, with its default.
unfoldable pub role_label : Option String → String
role_label role =
    if is_text role "forensic_analyst"
    then "Forensic Analyst"
    else if is_text role "legal_reviewer"
    then "Legal Reviewer"
    else if is_text role "admin"
    then "Administrator"
    else "Investigator"

pub record DashboardView : Type 0 where
  pub role_label : String
  pub stats : Stats
  pub list_label : String
  pub cases : CaseList
  pub actions : List String

unfoldable pub view : (String → String) → Option String → State → DashboardView
unfolding stats case_list quick_actions role_label
view locale_date role s = record {
  role_label = role_label role;
  stats = stats (is_text role "admin") s;
  list_label = if is_text role "admin" then "All Cases" else "Your Cases";
  cases = case_list locale_date (is_text role "admin") s;
  actions = quick_actions role;
}
