-- ===== src/AuthService/History.antt =====
-- The requests of the admins, one after the other.
use forensic_chain.Common.{ℕ, String, Bool, false, Option, List, [], ◌∷◌, ◌≡◌, ◌==◌, is_some, find}
use forensic_chain.AuthService.Store.{AuthDb}
use forensic_chain.AuthService.Admin.{
  Caller, Fresh, create_user, delete_user, create_case, update_case_status, create_assignment,
  delete_assignment,
}
use forensic_chain.AuthService.Sound.{
  IsSound, create_user-IsSound, delete_user-IsSound, create_assignment-IsSound,
  delete_assignment-IsSound,
}
use forensic_chain.AuthService.Cases.{create_case-IsSound, update_case_status-IsSound}

pub data Request : Type 0 where
  post_user : Fresh → String → String → String → Request
  delete_user_of : String → Request
  post_case : Fresh → String → String → Option String → Request
  patch_case : String → Option String → Request
  post_assignment : Fresh → String → String → String → Request
  delete_assignment_of : String → String → Request

module _ (hashpw : String → String) (is_decimal : ℕ → Bool) where
  -- The tables after a request, whatever it answers.
  unfoldable pub handle : Caller → AuthDb → Request → AuthDb
  handle c db (post_user fresh username password role) =
      (create_user hashpw c fresh db username password role).0
  handle c db (delete_user_of id) = (delete_user c db id).0
  handle c db (post_case fresh case_number title description) =
      (create_case is_decimal c fresh db case_number title description).0
  handle c db (patch_case id status) = (update_case_status c db id status).0
  handle c db (post_assignment fresh id username role) =
      (create_assignment c fresh db id username role).0
  handle c db (delete_assignment_of id assignment) = (delete_assignment c db id assignment).0

  unfoldable pub handle_all : AuthDb → List (Caller × Request) → AuthDb
  handle_all db [] = db
  handle_all db ((c, q) ∷ qs) = handle_all (handle c db q) qs

  -- The id that is drawn for a new case is not that of another.
  abbrev pub DrawsNew : AuthDb → Request → Type 0
  DrawsNew db (post_case fresh _ _ _) = is_some (find (λ k. k.id == fresh.id) db.cases) ≡ false
  DrawsNew db _ = Unit

  abbrev pub AllDrawNew : AuthDb → List (Caller × Request) → Type 0
  AllDrawNew db [] = Unit
  AllDrawNew db ((c, q) ∷ qs) = DrawsNew db q × AllDrawNew (handle c db q) qs

  handle-IsSound :
      (c : Caller) (db : AuthDb) (q : Request)
      → DrawsNew db q
      → IsSound db
      → IsSound (handle c db q)
  unfolding handle
  handle-IsSound c db (post_user fresh username password role) new h =
      create_user-IsSound hashpw c fresh db username password role h
  handle-IsSound c db (delete_user_of id) new h = delete_user-IsSound c db id h
  handle-IsSound c db (post_case fresh case_number title description) new h =
      create_case-IsSound is_decimal c fresh db case_number title description new h
  handle-IsSound c db (patch_case id status) new h = update_case_status-IsSound c db id status h
  handle-IsSound c db (post_assignment fresh id username role) new h =
      create_assignment-IsSound c fresh db id username role h
  handle-IsSound c db (delete_assignment_of id assignment) new h =
      delete_assignment-IsSound c db id assignment h

  -- Whoever sends which requests: from sound tables the handlers lead to sound tables, when each id
  -- that is drawn for a case is new.
  pub handle_all-IsSound :
      (qs : List (Caller × Request)) (db : AuthDb)
      → AllDrawNew db qs
      → IsSound db
      → IsSound (handle_all db qs)
  unfolding handle_all
  handle_all-IsSound [] db new h = h
  handle_all-IsSound ((c, q) ∷ qs) db new h =
      handle_all-IsSound qs (handle c db q) new.1 (handle-IsSound c db q new.0 h)
