-- ===== src/AuthService/Admin.antt =====
-- services/auth-service/routers/admin.py: the handlers that change the tables. `\d` of the regular
-- expression is the test `is_decimal` of the Unicode database, and `bcrypt.hashpw` is a parameter.
use Prim.Native.Char.{code}
use Prim.Native.String
use forensic_chain.Common.{
  ℕ, String, Bool, true, false, Option, none, some, List, [], ◌∷◌, ◌++◌, map, if◌then◌else◌, not,
  ◌&&◌, ◌||◌, ◌==◌, eqb, filter, find, is_some, is_text, is_present, or_else, contains,
}
use forensic_chain.Python.{Answer, answered, http_error, and_then}
use forensic_chain.Admin.Cases.NewCase.{Class, letter, digit, spelled, digit_classes}
use forensic_chain.AuthService.Store.{User, Case, CaseAssignment, AuthDb, is_for}

-- The headers `x-user-role` and `x-username`.
pub record Caller : Type 0 where
  pub role : Option String
  pub username : Option String

-- The id that is drawn for a new row, and its time.
pub record Fresh : Type 0 where
  pub id : String
  pub now : ℕ

-- `ALLOWED_ROLES` and `ASSIGNABLE_ROLES`
abbrev pub allowed_roles : List String
allowed_roles = "investigator" ∷ "forensic_analyst" ∷ "legal_reviewer" ∷ []

abbrev pub roles_text : String
roles_text = "forensic_analyst, investigator, legal_reviewer"

-- `^CASE-\d{4}-\d{3}$`: `$` also matches before a newline that ends the text.
unfoldable pub number_pattern : List Class
unfolding spelled digit_classes
number_pattern = spelled "CASE-" ++ digit_classes 4 ++ spelled "-" ++ digit_classes 3

unfoldable pub fits : (ℕ → Bool) → Class → ℕ → Bool
fits is_decimal (letter c) d = eqb c d
fits is_decimal digit d = is_decimal d

unfoldable pub matches : (ℕ → Bool) → List Class → String → Bool
unfolding fits
matches is_decimal [] s = s == "" || s == "\n"
matches is_decimal (c ∷ cs) String.[] = false
matches is_decimal (c ∷ cs) (String.◌∷◌ d s) = fits is_decimal c (code d) && matches is_decimal cs s

unfoldable pub require_admin : Caller → Answer Unit
require_admin c =
    if is_text c.role "admin" then answered tt else http_error 403 "Admin role required"

-- `x_username or "admin"`
unfoldable pub author : Caller → String
author c = if is_present c.username then or_else c.username "" else "admin"

-- What a handler leaves when its checks end in `a`: on an error the tables stay.
unfoldable pub commit_with : {A : Type 0} → AuthDb → Answer A → (A → AuthDb) → AuthDb × Answer A
commit_with db (http_error status detail) f = (db, http_error status detail)
commit_with db (answered a) f = (f a, answered a)

unfoldable pub new_user : (String → String) → Fresh → String → String → String → User
new_user hashpw fresh username password role = record {
  id = fresh.id;
  username = username;
  hashed_password = hashpw password;
  role = role;
  is_active = true;
  created_at = fresh.now;
}

unfoldable pub checked_user :
    (String → String) → Caller → Fresh → AuthDb → String → String → String → Answer User
checked_user hashpw c fresh db username password role = and_then (require_admin c) (λ _.
    if not (contains allowed_roles role)
    then http_error 422 (String.◌++◌ "Role must be one of: " roles_text)
    else if is_some (find (λ u. u.username == username) db.users)
    then http_error 409 "Username already exists"
    else answered (new_user hashpw fresh username password role))

unfoldable pub create_user :
    (String → String) → Caller → Fresh → AuthDb → String → String → String → AuthDb × Answer User
create_user hashpw c fresh db username password role =
    commit_with db (checked_user hashpw c fresh db username password role)
      (λ u. record db { users = db.users ++ u ∷ [] })

unfoldable pub found_user : Caller → Option User → Answer User
found_user c none = http_error 404 "User not found"
found_user c (some u) =
    if is_text c.username u.username
    then http_error 400 "Cannot delete your own account"
    else answered u

unfoldable pub delete_user : Caller → AuthDb → String → AuthDb × Answer User
delete_user c db user_id =
    commit_with db
      (and_then (require_admin c) (λ _. found_user c (find (λ u. u.id == user_id) db.users)))
      (λ u. record db { users = filter (λ v. not (v.id == u.id)) db.users })

unfoldable pub new_case : Caller → Fresh → String → String → Option String → Case
new_case c fresh case_number title description = record {
  id = fresh.id;
  case_number = case_number;
  title = title;
  description = description;
  status = "OPEN";
  created_at = fresh.now;
  created_by = author c;
}

unfoldable pub checked_case :
    (ℕ → Bool) → Caller → Fresh → AuthDb → String → String → Option String → Answer Case
checked_case is_decimal c fresh db case_number title description = and_then (require_admin c) (λ _.
    if not (matches is_decimal number_pattern case_number)
    then http_error 422 "case_number must match CASE-YYYY-NNN format"
    else if is_some (find (λ k. k.case_number == case_number) db.cases)
    then http_error 409 "Case number already exists"
    else answered (new_case c fresh case_number title description))

unfoldable pub create_case :
    (ℕ → Bool) → Caller → Fresh → AuthDb → String → String → Option String → AuthDb × Answer Case
create_case is_decimal c fresh db case_number title description =
    commit_with db (checked_case is_decimal c fresh db case_number title description)
      (λ k. record db { cases = db.cases ++ k ∷ [] })

unfoldable pub with_status : Option String → Option Case → Answer Case
with_status status none = http_error 404 "Case not found"
with_status status (some k) =
    if not (is_text status "OPEN" || is_text status "CLOSED")
    then http_error 422 "status must be OPEN or CLOSED"
    else answered (record k { status = or_else status "" })

-- `update_case_status`, where `status` is `body.get("status")`.
unfoldable pub update_case_status : Caller → AuthDb → String → Option String → AuthDb × Answer Case
update_case_status c db case_id status =
    commit_with db
      (and_then (require_admin c) (λ _. with_status status (find (λ k. k.id == case_id) db.cases)))
      (λ k. record db { cases = map (λ l. if l.id == k.id then k else l) db.cases })

unfoldable pub new_assignment : Caller → Fresh → String → String → String → CaseAssignment
new_assignment c fresh case_id username role_in_case = record {
  id = fresh.id;
  case_id = case_id;
  username = username;
  role_in_case = role_in_case;
  assigned_at = fresh.now;
  assigned_by = author c;
  is_active = true;
}

unfoldable pub open_case : Option Case → Answer Case
open_case none = http_error 404 "Case not found"
open_case (some k) =
    if k.status == "CLOSED" then http_error 409 "Cannot assign to a closed case" else answered k

unfoldable pub user_of_role : String → Option User → Answer User
user_of_role role_in_case none = http_error 404 "User not found"
user_of_role role_in_case (some u) =
    if not (u.role == role_in_case)
    then http_error 422
        (String.◌++◌ "role_in_case must match user's global role (" (String.◌++◌ u.role ")"))
    else answered u

-- The commit refuses a second assignment of a user to a case.
unfoldable pub checked_assignment :
    Caller → Fresh → AuthDb → String → String → String → Answer CaseAssignment
checked_assignment c fresh db case_id username role_in_case = and_then (require_admin c) (λ _.
    and_then
      (if not (contains allowed_roles role_in_case)
        then http_error 422 (String.◌++◌ "role_in_case must be one of: " roles_text)
        else answered tt)
      (λ _. and_then (open_case (find (λ k. k.id == case_id) db.cases)) (λ k.
        and_then (user_of_role role_in_case (find (λ u. u.username == username) db.users)) (λ u.
          if is_some (find (is_for case_id username) db.assignments)
          then http_error 409 "User already assigned to this case"
          else answered (new_assignment c fresh case_id username role_in_case)))))

unfoldable pub create_assignment :
    Caller → Fresh → AuthDb → String → String → String → AuthDb × Answer CaseAssignment
create_assignment c fresh db case_id username role_in_case =
    commit_with db (checked_assignment c fresh db case_id username role_in_case)
      (λ a. record db { assignments = db.assignments ++ a ∷ [] })

unfoldable pub found_assignment : Option CaseAssignment → Answer CaseAssignment
found_assignment none = http_error 404 "Assignment not found"
found_assignment (some a) = answered a

unfoldable pub delete_assignment :
    Caller → AuthDb → String → String → AuthDb × Answer CaseAssignment
delete_assignment c db case_id assignment_id =
    commit_with db
      (and_then (require_admin c) (λ _.
        found_assignment
          (find (λ a. a.id == assignment_id && a.case_id == case_id) db.assignments)))
      (λ a. record db { assignments = filter (λ b. not (b.id == a.id)) db.assignments })
