-- ===== src/Layout.antt =====
-- forensic-ui/src/components/Layout.tsx: the frame around every page of a login, with the links of
-- its navigation. `toUpperCase` is a parameter.
pub mod Links
pub mod Examples
use Prim.Native.String
use forensic_chain.Common.{
  ℕ, String, Bool, true, false, Option, none, some, List, [], ◌∷◌, if◌then◌else◌, ◌==◌, ◌&&◌,
  is_truthy, contains, filter, or_else,
}
use forensic_chain.Auth.{AuthView}
use forensic_chain.Format.{slice_to}
use forensic_chain.Routes.{
  everyone, uploaders, investigator, forensic_analyst, legal_reviewer, admin_role,
}

pub record NavItem : Type 0 where
  pub to : String
  pub label : String
  pub roles : List String

abbrev pub nav_items : List NavItem
nav_items =
    record { to = "/"; label = "Dashboard"; roles = everyone }
    ∷ record { to = "/artifacts/upload"; label = "Upload Evidence"; roles = uploaders }
    ∷ record { to = "/artifacts"; label = "My Artifacts"; roles = investigator ∷ [] }
    ∷ record { to = "/artifacts"; label = "Evidence List"; roles = forensic_analyst ∷ [] }
    ∷ record { to = "/artifacts"; label = "Evidence List"; roles = legal_reviewer ∷ [] }
    ∷ record { to = "/ledger"; label = "Ledger Chain"; roles = legal_reviewer ∷ [] }
    ∷ record { to = "/admin/users"; label = "Management Panel"; roles = admin_role ∷ [] }
    ∷ []

-- `role && item.roles.includes(role)`
unfoldable pub is_visible : Option String → NavItem → Bool
is_visible none item = false
is_visible (some role) item = is_truthy role && contains item.roles role

-- `visibleNav`
unfoldable pub visible_nav : Option String → List NavItem
unfolding is_visible filter
visible_nav role = filter (is_visible role) nav_items

pub record NavLink : Type 0 where
  pub to : String
  pub label : String
  pub active : Bool

abbrev pub nav_links : String → List NavItem → List NavLink
nav_links pathname [] = []
nav_links pathname (item ∷ items) =
    record { to = item.to; label = item.label; active = pathname == item.to }
    ∷ nav_links pathname items

pub record LayoutView : Type 0 where
  pub nav : List NavLink
  pub initial : String
  pub username : String
  pub role : String

unfoldable pub view : (String → String) → AuthView → String → LayoutView
unfolding visible_nav slice_to
view to_upper auth pathname = record {
  nav = nav_links pathname (visible_nav auth.role);
  initial = to_upper (slice_to 1 (or_else auth.username "?"));
  username = or_else auth.username "—";
  role = or_else auth.role "";
}
