-- ===== src/Admin/Examples.antt =====
-- Users and cases to try the theorems on.
use forensic_chain.Common.{
  ℕ, String, true, false, none, some, [], ◌∷◌, ◌≡◌, ◌≢◌, ◌⊎◌, refl, inl, inr, arith, if◌then◌else◌,
  ◌==◌, Holds, find, is_truthy, filter,
}
use forensic_chain.Api.{AdminUser}
use forensic_chain.Api.Endpoints
use forensic_chain.Api.Examples.{case_of}
use forensic_chain.Auth.Examples.{signed_in}
use forensic_chain.Search.Examples.{same_text}
use forensic_chain.Http.{Browser, resolved, on_request}
use forensic_chain.Admin.Assignments
use forensic_chain.Admin.Assignments.{assign_started}
use forensic_chain.Admin.Assignments.Roles
use forensic_chain.Admin.Assignments.Roles.{assign_sends}
use forensic_chain.Admin.Cases.NewCase
use forensic_chain.Admin.Cases.NewCase.{case_re, test, admits, spelled, digit_classes}
use forensic_chain.Admin.Cases.Number.{IsCaseNumber, submit_started-IsCaseNumber}
use forensic_chain.Admin.Users
use forensic_chain.Admin.Users.{
  sort_users, insert_user, goes_after, delete_clicked, delete_settled, load_settled, created,
}
use forensic_chain.Admin.Users.Order
use forensic_chain.Admin.Users.Order.{IsSorted, of_time, load_settled-IsSorted, Reach-IsSorted}

abbrev user_of : String → String → String → AdminUser
user_of name role created_at = record {
  id = name;
  username = name;
  role = role;
  is_active = true;
  created_at = created_at;
}

abbrev ada : AdminUser
ada = user_of "ada" "investigator" "1"

abbrev bob : AdminUser
bob = user_of "bob" "admin" "2"

-- A stand-in for the time of a date text.
abbrev time : String → ℕ
time date = if date == "2" then 2 else if date == "1" then 1 else 0

newest_first : sort_users time (ada ∷ bob ∷ []) ≡ bob ∷ ada ∷ []
unfolding sort_users insert_user goes_after
newest_first = refl

numbers_tested :
    (test case_re "CASE-2026-001" ≡ true)
    × (test case_re "CASE-26-001" ≡ false)
    × (test case_re "CASE-2026-0011" ≡ false)
    × (test case_re "" ≡ false)
unfolding test case_re admits spelled digit_classes
numbers_tested = (refl, refl, refl, refl)

abbrev admin_browser : Browser
admin_browser = signed_in "admin"

-- Ada is picked in the modal of a case.
abbrev picked_ada : Assignments.State
picked_ada = Assignments.pick_user (ada ∷ bob ∷ []) "ada" Assignments.init

ready :
    (Assignments.view same_text (case_of "C1") (ada ∷ bob ∷ []) picked_ada).assign_disabled ≡ false
unfolding Assignments.view Assignments.pick_user Assignments.assignable_users
    Assignments.is_assignable filter find
ready = refl

offered : Holds "ada" (Roles.usernames (Assignments.assignable_users (ada ∷ bob ∷ [])))
unfolding Assignments.assignable_users Assignments.is_assignable filter
offered = inl refl

assign_sends_example :
    (u : AdminUser) × Holds u (ada ∷ bob ∷ [])
    × (u.is_active ≡ true)
    × (u.role ≢ "admin")
    × ((case_of "C1").status ≢ "CLOSED")
    × ((assign_started admin_browser (case_of "C1") picked_ada).1
        ≡ some (on_request admin_browser (Endpoints.create_assignment "C1" u.username u.role)))
assign_sends_example =
    assign_sends same_text admin_browser {c = case_of "C1"} {users = ada ∷ bob ∷ []}
      {s = picked_ada}
      (Roles.next (Roles.next Roles.here (Roles.users_came (ada ∷ bob ∷ []) refl))
        (Roles.picked "ada" (inr offered)))
      ready

abbrev filled : NewCase.State
filled = record NewCase.init { case_number = "CASE-2026-001"; title = "Theft" }

submit_started-IsCaseNumber_example :
    (IsCaseNumber filled.case_number
      × ((NewCase.submit_started admin_browser filled).1
          ≡ some (
              on_request admin_browser (
                Endpoints.create_case filled.case_number filled.title
                  (if is_truthy filled.desc then some filled.desc else none)))))
    ⊎ ((IsCaseNumber filled.case_number → ⊥)
        × ((NewCase.submit_started admin_browser filled).1 ≡ none)
        × ((NewCase.submit_started admin_browser filled).0
            ≡ record filled { error = some "Format must be CASE-YYYY-NNN (e.g. CASE-2026-001)" }))
submit_started-IsCaseNumber_example = submit_started-IsCaseNumber admin_browser filled

bob_newest : Order.NotNewer time 2 (load_settled time (resolved (ada ∷ [])) Users.init).users
unfolding load_settled sort_users insert_user
bob_newest = (omega arith, tt)

Reach-IsSorted_example :
    IsSorted time (created bob (load_settled time (resolved (ada ∷ [])) Users.init)).users
Reach-IsSorted_example =
    Reach-IsSorted time {s = created bob (load_settled time (resolved (ada ∷ [])) Users.init)} (
      Order.next (Order.next Order.here (Order.loaded (resolved (ada ∷ []))))
        (Order.added bob bob_newest))

abbrev menu_of_ada : Users.State
menu_of_ada = record Users.init { users = bob ∷ ada ∷ []; open_menu = some "ada" }

asks_deletion :
    (delete_clicked admin_browser true menu_of_ada).1
    ≡ some (on_request admin_browser (Endpoints.delete_user "ada"))
unfolding delete_clicked find Users.delete_started
asks_deletion = refl
