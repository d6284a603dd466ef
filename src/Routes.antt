-- ===== src/Routes.antt =====
-- forensic-ui/src/App.tsx, components/ProtectedRoute.tsx and the guard of pages/LoginPage.tsx:
-- which page a location shows. The matching of a location against the table is
-- react-router's, and a parameter here.
pub mod Access
pub mod Redirects
pub mod Examples
use forensic_chain.Common.{
  ℕ, zero, suc, String, Bool, true, false, Option, none, some, List, [], ◌∷◌, if◌then◌else◌,
  is_text, not,
}
use forensic_chain.Http.{Browser}
use forensic_chain.Auth.{JwtPayload, is_authenticated, get_role, has_role}

pub data Page : Type 0 where
  login unauthorized dashboard cases upload artifact_list artifact_detail ledger reports admin :
      Page

-- What a component renders: a page, or `<Navigate to=… replace />`.
pub data View : Type 0 where
  shows : Page → View
  navigate : String → View

-- The element of a route: a page, or the component of the catch-all route.
pub data Element : Type 0 where
  page : Page → Element
  role_home : Element

-- A leaf of the table; `allowed` is the `allowedRoles` of the ProtectedRoute around it, if any.
pub record Route : Type 0 where
  pub path : String
  pub allowed : Option (List String)
  pub element : Element

abbrev pub investigator : String
investigator = "investigator"

abbrev pub forensic_analyst : String
forensic_analyst = "forensic_analyst"

abbrev pub legal_reviewer : String
legal_reviewer = "legal_reviewer"

abbrev pub admin_role : String
admin_role = "admin"

abbrev pub everyone : List String
everyone = investigator ∷ forensic_analyst ∷ legal_reviewer ∷ admin_role ∷ []

abbrev pub uploaders : List String
uploaders = investigator ∷ forensic_analyst ∷ []

abbrev pub readers : List String
readers = investigator ∷ forensic_analyst ∷ legal_reviewer ∷ []

-- `<Routes>` of `App`, in its order.
abbrev pub routes : List Route
routes =
    record { path = "/login"; allowed = none; element = page login }
    ∷ record { path = "/unauthorized"; allowed = none; element = page unauthorized }
    ∷ record { path = "/"; allowed = some everyone; element = page dashboard }
    ∷ record { path = "/cases/:caseId"; allowed = some everyone; element = page cases }
    ∷ record { path = "/artifacts/upload"; allowed = some uploaders; element = page upload }
    ∷ record { path = "/artifacts"; allowed = some readers; element = page artifact_list }
    ∷ record { path = "/artifacts/:id"; allowed = some readers; element = page artifact_detail }
    ∷ record { path = "/ledger"; allowed = some (legal_reviewer ∷ []); element = page ledger }
    ∷ record {
      path = "/reports/:artifactId";
      allowed = some (legal_reviewer ∷ []);
      element = page reports;
    }
    ∷ record { path = "/admin/users"; allowed = some (admin_role ∷ []); element = page admin }
    ∷ record { path = "*"; allowed = none; element = role_home }
    ∷ []

-- `redirectForRole` of LoginPage.
abbrev pub redirect_for_role : Option String → String
redirect_for_role role = "/"

module _ (jwt_decode : String → Option JwtPayload) (b : Browser) (now : ℕ) where
  -- `allowedRoles && !hasRole(allowedRoles)`
  abbrev lacks_role : Option (List String) → Bool
  lacks_role none = false
  lacks_role (some roles) = not (has_role jwt_decode b roles)

  -- `ProtectedRoute`, around the view of its outlet.
  unfoldable pub protected_route : Option (List String) → View → View
  protected_route allowed outlet =
      if is_authenticated jwt_decode b now
      then if lacks_role allowed
        then if is_text (get_role jwt_decode b) "admin"
          then navigate "/admin/users"
          else navigate "/unauthorized"
        else outlet
      else navigate "/login"

  -- The early return of `LoginPage`; the other pages render in every state of the login.
  unfoldable pub page_view : Page → View
  page_view login =
      if is_authenticated jwt_decode b now
      then navigate (redirect_for_role (get_role jwt_decode b))
      else shows login
  page_view p = shows p

  -- `RoleHome`
  unfoldable pub role_home_view : View
  role_home_view = if is_authenticated jwt_decode b now then navigate "/" else navigate "/login"

  unfoldable pub element_view : Element → View
  unfolding page_view role_home_view
  element_view (page p) = page_view p
  element_view role_home = role_home_view

  abbrev guarded : Option (List String) → View → View
  guarded none v = v
  guarded (some allowed) v = protected_route (some allowed) v

  unfoldable pub route_view : Route → View
  unfolding protected_route element_view
  route_view r = guarded r.allowed (element_view r.element)

  -- Nothing is rendered where no route matches.
  abbrev matched_view : Option Route → Option View
  matched_view none = none
  matched_view (some r) = some (route_view r)

  module _ (match_route : List Route → String → Option Route) where
    -- `App` at a location.
    unfoldable pub app : String → Option View
    app path = matched_view (match_route routes path)

    -- The location after at most `k` redirects, and what it shows.
    unfoldable pub visit : ℕ → String → Option View
    visit zero path = app path
    visit (suc k) path = elim (app path) [
      | none ↦ none
      | some v ↦ elim v [ shows p ↦ some (shows p) | navigate to ↦ visit k to ]
    ]
