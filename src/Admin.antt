-- ===== src/Admin.antt =====
-- forensic-ui/src/pages/AdminPage.tsx: the page with its two tabs, and the helpers that its parts
-- share.
pub mod Assignments
pub mod Cases
pub mod Users
pub mod Examples
use forensic_chain.Common.{
  ℕ, ◌+◌, String, Bool, true, false, Option, none, some, List, [], ◌∷◌, if◌then◌else◌, ltb, ◌==◌,
}
use forensic_chain.Api.{AdminUser}
use forensic_chain.Http.{Reply, resolved, rejected}

-- The colours of `ROLE_BADGE` and of `CASE_STATUS_BADGE`, by name, each with its default.
pub data RoleTone : Type 0 where
  blue purple orange red slate : RoleTone

unfoldable pub role_tone : String → RoleTone
role_tone role =
    if role == "investigator"
    then blue
    else if role == "forensic_analyst"
    then purple
    else if role == "legal_reviewer"
    then orange
    else if role == "admin"
    then red
    else slate

-- The place of a button in the window, in pixels from its top.
pub record Button : Type 0 where
  pub top : ℕ
  pub bottom : ℕ

-- The distance of a menu from the top of the window: `plus - minus`, which may be negative.
pub record Anchor : Type 0 where
  pub plus : ℕ
  pub minus : ℕ

-- `openMenuFor` of both tabs places a menu of height `drop_h` below the button or above it.
unfoldable pub menu_anchor : ℕ → ℕ → Button → Anchor
menu_anchor drop_h inner_height r =
    if ltb (r.bottom + 4 + drop_h) inner_height
    then record { plus = r.bottom + 4; minus = 0 }
    else record { plus = r.top; minus = drop_h + 4 }

pub data Tab : Type 0 where
  users_tab cases_tab : Tab

-- `users` is the list that the cases tab takes its assignable users from.
pub record State : Type 0 where
  pub active_tab : Tab
  pub users : List AdminUser

abbrev pub init : State
init = record { active_tab = users_tab; users = [] }

unfoldable pub users_settled : Reply (List AdminUser) → State → State
users_settled (resolved users) s = record s { users = users }
users_settled (rejected err) s = s

unfoldable pub set_tab : Tab → State → State
set_tab tab s = record s { active_tab = tab }
