-- ===== src/Admin/Cases.antt =====
-- CasesTab of forensic-ui/src/pages/AdminPage.tsx: its state, the menu of a case, the change of a
-- case's status, and what it renders. `alert` holds the text of the last `alert(…)`.
pub mod NewCase
pub mod Number
pub mod Listing
use forensic_chain.Common.{
  ℕ, String, Bool, true, false, Option, none, some, List, [], ◌∷◌, ◌++◌, if◌then◌else◌, ◌==◌, ◌&&◌,
  not, is_some, is_text, length, find,
}
use forensic_chain.Api.{Case}
use forensic_chain.Api.Endpoints
use forensic_chain.Http.{Browser, HttpRequest, Reply, resolved, rejected, on_request}
use forensic_chain.Admin.{Anchor, Button, menu_anchor}

pub record State : Type 0 where
  pub cases : List Case
  pub loading : Bool
  pub error : Option String
  pub open_menu : Option String
  pub anchor : Option Anchor
  pub show_add : Bool
  pub assign_case : Option Case
  pub alert : Option String

abbrev pub init : State
init = record {
  cases = [];
  loading = true;
  error = none;
  open_menu = none;
  anchor = none;
  show_add = false;
  assign_case = none;
  alert = none;
}

unfoldable pub load_settled : Reply (List Case) → State → State
load_settled (resolved cases) s = record s { cases = cases; loading = false }
load_settled (rejected err) s = record s { error = some "Failed to load cases."; loading = false }

unfoldable pub open_menu_for : ℕ → Button → String → State → State
unfolding menu_anchor
open_menu_for inner_height r id s = record s {
  anchor = some (menu_anchor 88 inner_height r);
  open_menu = if is_text s.open_menu id then none else some id;
}

abbrev pub new_status : Case → String
new_status c = if c.status == "OPEN" then "CLOSED" else "OPEN"

-- `handleToggleStatus` up to its `await`.
unfoldable pub toggle_started : Browser → Case → State → State × HttpRequest
toggle_started b c s =
    (record s { open_menu = none }, on_request b (Endpoints.update_case_status c.id (new_status c)))

-- `prev.map((x) => x.id === c.id ? updated : x)`
unfoldable pub put_case : String → Case → List Case → List Case
put_case id updated [] = []
put_case id updated (x ∷ xs) = (if x.id == id then updated else x) ∷ put_case id updated xs

-- `handleToggleStatus` from its `await` on.
unfoldable pub toggle_settled : Case → Reply Case → State → State
unfolding put_case
toggle_settled c (resolved updated) s = record s { cases = put_case c.id updated s.cases }
toggle_settled c (rejected err) s = record s { alert = some "Failed to update case status." }

-- "Manage Assignments" of the menu.
unfoldable pub manage_assignments : Case → State → State
manage_assignments c s = record s { open_menu = none; assign_case = some c }

-- A click beside the menu.
unfoldable pub close_menu : State → State
close_menu s = record s { open_menu = none }

-- The button for a new case, and `onClose` of its modal.
unfoldable pub set_add : Bool → State → State
set_add shown s = record s { show_add = shown }

-- `onClose` of the modal for assignments.
unfoldable pub close_assignments : State → State
close_assignments s = record s { assign_case = none }

-- `onCreated` of the modal for a new case.
unfoldable pub created : Case → State → State
created c s = record s { cases = s.cases ++ c ∷ []; show_add = false }

-- The menu: the case that it is for, the place, and the label of its second entry.
pub record Menu : Type 0 where
  pub of_case : Case
  pub place : Anchor
  pub toggle_label : String

pub data Table : Type 0 where
  skeleton : ℕ → Table
  message : String → Table
  rows : List (String × String × String × String) → Table

pub record CasesView : Type 0 where
  pub count : Option ℕ
  pub error : Option String
  pub table : Table
  pub menu : Option Menu
  pub adding : Bool
  pub assigning : Option Case

abbrev case_rows : (String → String) → List Case → List (String × String × String × String)
case_rows locale_date [] = []
case_rows locale_date (c ∷ cs) =
    (c.case_number, c.title, c.status, locale_date c.created_at) ∷ case_rows locale_date cs

abbrev loaded_table : (String → String) → List Case → Table
loaded_table locale_date [] = message "No cases yet. Create one to get started."
loaded_table locale_date (c ∷ cs) = rows (case_rows locale_date (c ∷ cs))

abbrev menu_for : Anchor → Option Case → Option Menu
menu_for place none = none
menu_for place (some c) = some (record {
  of_case = c;
  place = place;
  toggle_label = if c.status == "OPEN" then "Close Case" else "Reopen Case";
})

abbrev menu_of : List Case → Option String → Option Anchor → Option Menu
menu_of cases (some id) (some place) = menu_for place (find (λ x. x.id == id) cases)
menu_of cases _ _ = none

unfoldable pub view : (String → String) → State → CasesView
view locale_date s = record {
  count = if not s.loading && not (is_some s.error) then some (length s.cases) else none;
  error = s.error;
  table = if s.loading then skeleton 3 else loaded_table locale_date s.cases;
  menu = menu_of s.cases s.open_menu s.anchor;
  adding = s.show_add;
  assigning = s.assign_case;
}
