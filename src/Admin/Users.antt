-- ===== src/Admin/Users.antt =====
-- UsersTab and AddUserModal of forensic-ui/src/pages/AdminPage.tsx: the order of the users, the
-- state, the menu, the deletion and the modal for a new user. `time` is the time of a date text in
-- milliseconds; `alert` holds the text of the last `alert(…)`.
pub mod Order
pub mod Menu
use Prim.Native.String.{◌++◌ as concat}
use forensic_chain.Common.{
  ℕ, String, Bool, true, false, Option, none, some, List, [], ◌∷◌, if◌then◌else◌, ltb, ◌==◌, ◌&&◌,
  not, is_some, is_text, length, filter, find,
}
use forensic_chain.Api.{AdminUser, CreateUserBody}
use forensic_chain.Api.Endpoints
use forensic_chain.Http.{
  Browser, HttpRequest, Reply, resolved, rejected, Failure, status_of, is_status, on_request,
}
use forensic_chain.Admin.{Anchor, Button, menu_anchor, RoleTone, role_tone}

module _ (time : String → ℕ) where
  -- `byCreatedDesc(a, b) > 0`: `b` belongs before `a`.
  unfoldable pub goes_after : AdminUser → AdminUser → Bool
  goes_after a b = ltb (time a.created_at) (time b.created_at)

  -- `sort` is stable: `u`, which stood before all of these, goes before the first that needs not
  -- stand before it.
  unfoldable pub insert_user : AdminUser → List AdminUser → List AdminUser
  unfolding goes_after
  insert_user u [] = u ∷ []
  insert_user u (v ∷ vs) = if goes_after u v then v ∷ insert_user u vs else u ∷ v ∷ vs

  -- `[...data].sort(byCreatedDesc)`
  unfoldable pub sort_users : List AdminUser → List AdminUser
  unfolding insert_user
  sort_users [] = []
  sort_users (u ∷ us) = insert_user u (sort_users us)

pub record State : Type 0 where
  pub users : List AdminUser
  pub loading : Bool
  pub error : Option String
  pub open_menu : Option String
  pub anchor : Option Anchor
  pub show_modal : Bool
  pub alert : Option String

abbrev pub init : State
init = record {
  users = [];
  loading = true;
  error = none;
  open_menu = none;
  anchor = none;
  show_modal = false;
  alert = none;
}

unfoldable pub load_settled : (String → ℕ) → Reply (List AdminUser) → State → State
unfolding sort_users
load_settled time (resolved users) s = record s { users = sort_users time users; loading = false }
load_settled time (rejected err) s = record s {
  error = some "Failed to load users.";
  loading = false;
}

unfoldable pub open_menu_for : ℕ → Button → String → State → State
unfolding menu_anchor
open_menu_for inner_height r id s = record s {
  anchor = some (menu_anchor 44 inner_height r);
  open_menu = if is_text s.open_menu id then none else some id;
}

-- `handleDelete` up to its `await`; `confirmed` is the answer to `window.confirm`.
unfoldable pub delete_started : Browser → Bool → String → State → State × Option HttpRequest
delete_started b confirmed id s =
    if not confirmed
    then (record s { open_menu = none }, none)
    else (record s { open_menu = none }, some (on_request b (Endpoints.delete_user id)))

-- "Delete user" of the menu: the user that it is open for, if there is one.
unfoldable pub delete_clicked : Browser → Bool → State → State × Option HttpRequest
unfolding delete_started
delete_clicked b confirmed s = elim s.open_menu [
  | none ↦ (s, none)
  | some id ↦ elim (find (λ u. u.id == id) s.users) [
    | none ↦ (s, none)
    | some u ↦ delete_started b confirmed u.id s
  ]
]

-- `handleDelete` from its `await` on.
unfoldable pub delete_settled : String → Reply (Unit {0}) → State → State
unfolding filter
delete_settled id (resolved _) s = record s { users = filter (λ u. not (u.id == id)) s.users }
delete_settled id (rejected err) s = record s { alert = some "Failed to delete user." }

-- A click beside the menu.
unfoldable pub close_menu : State → State
close_menu s = record s { open_menu = none }

-- The button for a new user, and `onClose` of the modal.
unfoldable pub set_modal : Bool → State → State
set_modal shown s = record s { show_modal = shown }

-- `onCreated` of the modal.
unfoldable pub created : AdminUser → State → State
created u s = record s { users = u ∷ s.users; show_modal = false }

-- AddUserModal.
pub record Modal : Type 0 where
  pub form : CreateUserBody
  pub error : Option String
  pub saving : Bool

abbrev pub new_modal : Modal
new_modal = record {
  form = record { username = ""; password = ""; role = "investigator" };
  error = none;
  saving = false;
}

-- The inputs of the modal.
unfoldable pub type_username : String → Modal → Modal
type_username text m = record m { form = record m.form { username = text } }

unfoldable pub type_password : String → Modal → Modal
type_password text m = record m { form = record m.form { password = text } }

unfoldable pub pick_role : String → Modal → Modal
pick_role role m = record m { form = record m.form { role = role } }

unfoldable pub create_started : Browser → Modal → Modal × HttpRequest
create_started b m =
    (record m { saving = true; error = none }, on_request b (Endpoints.create_user m.form))

unfoldable pub create_error : Failure → String
create_error err =
    if is_status (status_of err) 409
    then "Username already exists."
    else "Failed to create user. Please try again."

-- The modal after the reply, and the tab, which `onCreated` changes.
unfoldable pub create_settled : Reply AdminUser → Modal → State → Modal × State
unfolding created create_error
create_settled (resolved u) m s = (record m { saving = false }, created u s)
create_settled (rejected err) m s =
    (record m { error = some (create_error err); saving = false }, s)

pub record Row : Type 0 where
  pub username : String
  pub tone : RoleTone
  pub role : String
  pub active : String
  pub created : String

pub data Table : Type 0 where
  skeleton : ℕ → Table
  rows : List Row → Table

pub record UsersView : Type 0 where
  pub count : Option ℕ
  pub error : Option String
  pub table : Table
  pub menu : Option Anchor
  pub modal : Bool

abbrev user_rows : (String → String) → List AdminUser → List Row
user_rows locale_date [] = []
user_rows locale_date (u ∷ us) =
    record {
      username = u.username;
      tone = role_tone u.role;
      role = u.role;
      active = if u.is_active then "Active" else "Inactive";
      created = locale_date u.created_at;
    }
    ∷ user_rows locale_date us

unfoldable pub view : (String → String) → State → UsersView
unfolding role_tone
view locale_date s = record {
  count = if not s.loading && not (is_some s.error) then some (length s.users) else none;
  error = s.error;
  table = if s.loading then skeleton 4 else rows (user_rows locale_date s.users);
  menu = elim s.open_menu [ none ↦ none | some id ↦ s.anchor ];
  modal = s.show_modal;
}
