-- ===== src/Dashboard/Actions.antt =====
-- The quick actions against the table of routes.
use forensic_chain.Common.{
  String, true, Option, none, some, List, ◌≡◌, refl, contains, Holds, All, All-at, find, ◌==◌,
}
use forensic_chain.Routes.{routes, everyone}
use forensic_chain.Dashboard.{State, quick_actions, view}

-- The roles that the route at a location admits.
abbrev pub allowed_at : String → Option (List String)
allowed_at path = elim (find (λ r. r.path == path) routes) [ none ↦ none | some r ↦ r.allowed ]

abbrev pub AdmitsRole : String → String → Type 0
AdmitsRole role path =
    (roles : List String) × (allowed_at path ≡ some roles) × (contains roles role ≡ true)

-- To each of the four roles the dashboard offers only quick actions whose routes admit it.
pub quick_actions-AdmitsRole :
    (locale_date : String → String) (role : String) (s : State)
    → Holds role everyone
    → All (AdmitsRole role) (view locale_date (some role) s).actions
unfolding view quick_actions find contains
quick_actions-AdmitsRole locale_date role s known =
    All-at (λ q. All (AdmitsRole q) (quick_actions (some q))) everyone role
      (
        ((_, refl, refl), ((_, refl, refl), tt)),
        (
          ((_, refl, refl), ((_, refl, refl), tt)),
          (((_, refl, refl), tt), (((_, refl, refl), tt), tt)),
        ),
      )
      known
