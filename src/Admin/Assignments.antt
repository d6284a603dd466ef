-- ===== src/Admin/Assignments.antt =====
-- AssignmentsModal of forensic-ui/src/pages/AdminPage.tsx: its state, the user selector, the two
-- handlers, and what it renders.
pub mod Roles
use Prim.Native.String.{◌++◌ as concat}
use forensic_chain.Common.{
  ℕ, String, Bool, true, false, Option, none, some, List, [], ◌∷◌, ◌++◌, if◌then◌else◌, ◌==◌, ◌&&◌,
  ◌||◌, not, is_truthy, filter, find,
}
use forensic_chain.Api.{AdminUser, Case, CaseAssignment}
use forensic_chain.Api.Endpoints
use forensic_chain.Http.{
  Browser, HttpRequest, Reply, resolved, rejected, Failure, status_of, is_status, on_request,
}
use forensic_chain.Admin.{RoleTone, role_tone}

pub record State : Type 0 where
  pub assignments : List CaseAssignment
  pub loading : Bool
  pub username : String
  pub role_in_case : String
  pub error : Option String
  pub saving : Bool

abbrev pub init : State
init = record {
  assignments = [];
  loading = true;
  username = "";
  role_in_case = "";
  error = none;
  saving = false;
}

unfoldable pub is_assignable : AdminUser → Bool
is_assignable u = not (u.role == "admin") && u.is_active

-- `assignableUsers`
unfoldable pub assignable_users : List AdminUser → List AdminUser
unfolding is_assignable filter
assignable_users users = filter is_assignable users

unfoldable pub load_settled : Reply (List CaseAssignment) → State → State
load_settled (resolved assignments) s = record s { assignments = assignments; loading = false }
load_settled (rejected err) s = record s {
  error = some "Failed to load assignments.";
  loading = false;
}

-- `onChange` of the user selector.
unfoldable pub pick_user : List AdminUser → String → State → State
unfolding assignable_users
pick_user users name s = elim (find (λ u. u.username == name) (assignable_users users)) [
  | none ↦ record s { username = name }
  | some u ↦ record s { username = name; role_in_case = u.role }
]

-- `handleAssign` up to its `await`.
unfoldable pub assign_started : Browser → Case → State → State × Option HttpRequest
assign_started b c s =
    if is_truthy s.username
    then (
      record s { saving = true; error = none },
      some (on_request b (Endpoints.create_assignment c.id s.username s.role_in_case)),
    )
    else (s, none)

unfoldable pub assign_error : Failure → String
assign_error err =
    if is_status (status_of err) 409 then "User already assigned." else "Failed to assign user."

-- `handleAssign` from its `await` on.
unfoldable pub assign_settled : Reply CaseAssignment → State → State
unfolding assign_error
assign_settled (resolved a) s = record s {
  assignments = s.assignments ++ a ∷ [];
  username = "";
  saving = false;
}
assign_settled (rejected err) s = record s { error = some (assign_error err); saving = false }

-- `handleRemove` from its `await` on.
unfoldable pub remove_settled : String → Reply (Unit {0}) → State → State
unfolding filter
remove_settled id (resolved _) s = record s {
  assignments = filter (λ a. not (a.id == id)) s.assignments;
}
remove_settled id (rejected err) s = record s { error = some "Failed to remove assignment." }

pub record Row : Type 0 where
  pub username : String
  pub tone : RoleTone
  pub role : String
  pub assigned : String

pub data Table : Type 0 where
  skeleton : ℕ → Table
  message : String → Table
  rows : List Row → Table

pub record ModalView : Type 0 where
  pub heading : String
  pub table : Table
  pub closed_note : Bool
  pub options : List (String × String)
  pub role : String
  pub assign_disabled : Bool
  pub error : Option String

abbrev assignment_rows : (String → String) → List CaseAssignment → List Row
assignment_rows locale_date [] = []
assignment_rows locale_date (a ∷ rest) =
    record {
      username = a.username;
      tone = role_tone a.role_in_case;
      role = a.role_in_case;
      assigned = locale_date a.assigned_at;
    }
    ∷ assignment_rows locale_date rest

abbrev loaded_table : (String → String) → List CaseAssignment → Table
loaded_table locale_date [] = message "No assignments yet."
loaded_table locale_date (a ∷ rest) = rows (assignment_rows locale_date (a ∷ rest))

abbrev pub user_options : List AdminUser → List (String × String)
user_options [] = []
user_options (u ∷ us) =
    (u.username, concat u.username (concat " (" (concat u.role ")"))) ∷ user_options us

unfoldable pub view : (String → String) → Case → List AdminUser → State → ModalView
unfolding assignable_users role_tone
view locale_date c users s = record {
  heading = concat c.case_number (concat " — " c.title);
  table = if s.loading then skeleton 2 else loaded_table locale_date s.assignments;
  closed_note = c.status == "CLOSED";
  options = ("", "Select user…") ∷ user_options (assignable_users users);
  role = if is_truthy s.role_in_case then s.role_in_case else "—";
  assign_disabled = s.saving || not (is_truthy s.username) || c.status == "CLOSED";
  error = s.error;
}
