-- ===== src/Routes/Examples.antt =====
-- A router that meets the assumptions, and locations opened with it.
use forensic_chain.Common.{
  String, Option, none, some, List, ◌≡◌, refl, ◌==◌, true, contains, find, find-eq-some,
  Option-cases, inl, inr, arith, Holds, ◌≢◌, ◌↔◌,
}
use forensic_chain.Auth.Examples.{decode_role, signed_in}
use forensic_chain.Auth.{is_authenticated, has_role}
use forensic_chain.Routes.{
  Page, login, unauthorized, dashboard, ledger, shows, navigate, page, role_home, Route, routes,
  route_view, app, visit,
}
use forensic_chain.Routes.Access.{IsRouter, is_static, Allowed, route_view-eq-shows_iff}
use forensic_chain.Routes.Redirects.{visit_settles}

-- Literal patterns only, and the catch-all.
abbrev pub match_literal : List Route → String → Option Route
match_literal rs path = elim (find (λ r. r.path == path) rs) [
  | none ↦ find (λ r. r.path == "*") rs
  | some r ↦ some r
]

literal_listed : (path : String) (r : Route) → match_literal routes path ≡ some r → Holds r routes
literal_listed path r e = elim (Option-cases (find (λ r. r.path == path) routes)) [
  | inl missed ↦ (find-eq-some (λ r. r.path == "*") routes r (ground (arith, missed))).0
  | inr (q, found) ↦ (find-eq-some (λ r. r.path == path) routes r (ground (arith, found))).0
]

abbrev last_route : Route
last_route = record { path = "*"; allowed = none; element = role_home }

fallback : find (λ r. r.path == "*") routes ≡ some last_route
unfolding find
fallback = refl

literal_total : (path : String) → match_literal routes path ≢ none
literal_total path e = elim (Option-cases (find (λ r. r.path == path) routes)) [
  | inl missed ↦ cc (fallback, rw (missed, match_literal) at e)
  | inr (q, found) ↦ cc (rw (found, match_literal) at e)
]

literal_static :
    (path : String) (r : Route)
    → find (λ r. r.path == path) routes ≡ some r
    → is_static path ≡ true
    → match_literal routes path ≡ some r
literal_static path r found plain = rw (found, match_literal)

pub literal-IsRouter : IsRouter match_literal
literal-IsRouter = record {
  listed = literal_listed;
  static = literal_static;
  total = literal_total;
}

analyst_opens_ledger :
    (visit decode_role (signed_in "forensic_analyst") 0 match_literal 0 "/ledger"
      ≡ some (navigate "/unauthorized"))
    × (visit decode_role (signed_in "forensic_analyst") 0 match_literal 1 "/ledger"
        ≡ some (shows unauthorized))
unfolding visit app route_view is_authenticated has_role find contains
analyst_opens_ledger = (refl, refl)

-- A client with no live token ends on the login page from an unknown location.
stranger : visit decode_role (signed_in "bad") 0 match_literal 2 "/nowhere" ≡ some (shows login)
unfolding visit app route_view is_authenticated has_role find contains
stranger = refl

-- A role that the table does not name is refused on the home page, after two redirects.
guest :
    (visit decode_role (signed_in "guest") 0 match_literal 1 "/login"
      ≡ some (navigate "/unauthorized"))
    × (visit decode_role (signed_in "guest") 0 match_literal 2 "/login" ≡ some (shows unauthorized))
unfolding visit app route_view is_authenticated has_role find contains
guest = (refl, refl)

route_view-eq-shows_iff_example :
    (route_view decode_role (signed_in "admin") 0 last_route ≡ shows dashboard)
    ↔ ((role_home ≡ page dashboard) × Allowed decode_role (signed_in "admin") 0 dashboard)
route_view-eq-shows_iff_example =
    route_view-eq-shows_iff decode_role (signed_in "admin") 0 last_route dashboard
      (find-eq-some (λ r. r.path == "*") routes last_route fallback).0

reviewer_at_ledger :
    app decode_role (signed_in "legal_reviewer") 0 match_literal "/ledger" ≡ some (shows ledger)
unfolding app route_view is_authenticated has_role find contains
reviewer_at_ledger = refl

visit_settles_example :
    (p : Page) × (visit decode_role (signed_in "guest") 0 match_literal 2 "/login" ≡ some (shows p))
    × Allowed decode_role (signed_in "guest") 0 p
visit_settles_example =
    visit_settles decode_role (signed_in "guest") 0 match_literal literal-IsRouter "/login"
