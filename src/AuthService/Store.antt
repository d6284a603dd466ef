-- ===== src/AuthService/Store.antt =====
-- services/auth-service/models.py, and the queries that other services ask.
use forensic_chain.Common.{ℕ, String, Bool, Option, List, map, ◌&&◌, ◌==◌, filter, find, is_some}

pub record User : Type 0 where
  pub id : String
  pub username : String
  pub hashed_password : String
  pub role : String
  pub is_active : Bool
  pub created_at : ℕ

pub record Case : Type 0 where
  pub id : String
  pub case_number : String
  pub title : String
  pub description : Option String
  pub status : String
  pub created_at : ℕ
  pub created_by : String

pub record CaseAssignment : Type 0 where
  pub id : String
  pub case_id : String
  pub username : String
  pub role_in_case : String
  pub assigned_at : ℕ
  pub assigned_by : String
  pub is_active : Bool

pub record AuthDb : Type 0 where
  pub users : List User
  pub cases : List Case
  pub assignments : List CaseAssignment

unfoldable pub is_for : String → String → CaseAssignment → Bool
is_for case_id username a = a.case_id == case_id && a.username == username

-- The join of a case with the active assignments of a user, of which there is one at most by the
-- constraint `uq_case_assignment`.
unfoldable pub is_open_for : AuthDb → String → Case → Bool
is_open_for db username k =
    k.status == "OPEN" && is_some (find (λ a. is_for k.id username a && a.is_active) db.assignments)

-- `get_user_assignments`
unfoldable pub get_user_assignments : AuthDb → String → List String
get_user_assignments db username =
    map (λ k. k.case_number) (filter (is_open_for db username) db.cases)
