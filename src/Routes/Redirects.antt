-- ===== src/Routes/Redirects.antt =====
-- The redirects of App.tsx, ProtectedRoute.tsx and LoginPage.tsx end.
use forensic_chain.Common.{
  ℕ, zero, suc, String, true, false, Option, none, some, List, [], ◌∷◌, ◌≡◌, refl, ◌≢◌, ◌⊎◌, arith,
  Bool-cases, Option-cases, ◌∙◌, subst, ap, inl, inr, contains, find, find-eq-some, ◌==◌, eq_iff,
  is_text,
}
use forensic_chain.Http.{Browser}
use forensic_chain.Auth.{JwtPayload, decode_token, is_authenticated, get_role, has_role}
use forensic_chain.Routes.{
  Page, login, unauthorized, dashboard, admin, View, shows, navigate, Element, page, role_home,
  Route, routes, admin_role, everyone, protected_route, page_view, element_view, route_view, app,
  visit,
}
use forensic_chain.Routes.Access.{
  IsRouter, is_static, Allowed, app-Allowed, route_view-eq-shows_iff,
}

-- An admin has each role list that names `admin`.
has_role_of_admin :
    (jwt_decode : String → Option JwtPayload) (b : Browser) (roles : List String)
    → is_text (get_role jwt_decode b) "admin" ≡ true
    → contains roles "admin" ≡ true
    → has_role jwt_decode b roles ≡ true
unfolding has_role
has_role_of_admin jwt_decode b roles a c = elim (Option-cases (decode_token jwt_decode b)) [
  | inl missing ↦ absurd (ground (arith, missing))
  | inr (payload, found) ↦
      let named : payload.role ≡ "admin" =
        (eq_iff payload.role "admin").0 (ground (arith, found)) in
      rw (found, has_role) (rw named c)
]

module _ (jwt_decode : String → Option JwtPayload) (b : Browser) (now : ℕ)
    (match_route : List Route → String → Option Route) (router : IsRouter match_route) where
  at_static :
      (path : String) (r : Route)
      → find (λ r. r.path == path) routes ≡ some r
      → is_static path ≡ true
      → app jwt_decode b now match_route path ≡ some (route_view jwt_decode b now r)
  unfolding app
  at_static path r found plain = rw (router.static path r found plain)

  -- A static location of the table shows its page to every login that may open it.
  pub open_page :
      (path : String) (r : Route)
      → find (λ r. r.path == path) routes ≡ some r
      → is_static path ≡ true
      → (p : Page) → (r.element ≡ page p) × Allowed jwt_decode b now p
      → app jwt_decode b now match_route path ≡ some (shows p)
  open_page path r found plain p ok =
      at_static path r found plain
      ∙ ap some (
          (route_view-eq-shows_iff jwt_decode b now r p
              (find-eq-some (λ r. r.path == path) routes r found).0).1
            ok)

  at_login :
      is_authenticated jwt_decode b now ≡ false
      → app jwt_decode b now match_route "/login" ≡ some (shows login)
  unfolding find is_static route_view
  at_login off = rw (at_static "/login" _ refl refl) (rw off)

  at_unauthorized : app jwt_decode b now match_route "/unauthorized" ≡ some (shows unauthorized)
  unfolding find is_static route_view
  at_unauthorized = at_static "/unauthorized" _ refl refl

  at_admin :
      is_authenticated jwt_decode b now ≡ true
      → is_text (get_role jwt_decode b) "admin" ≡ true
      → app jwt_decode b now match_route "/admin/users" ≡ some (shows admin)
  unfolding find is_static route_view contains
  at_admin live a =
      rw (at_static "/admin/users" _ refl refl)
        (rw live (rw (has_role_of_admin jwt_decode b (admin_role ∷ []) a refl)))

  -- Where `/` leads a live login: to the dashboard, or to the page of a refusal.
  at_home :
      is_authenticated jwt_decode b now ≡ true
      → (app jwt_decode b now match_route "/" ≡ some (shows dashboard))
        ⊎ (app jwt_decode b now match_route "/" ≡ some (navigate "/unauthorized"))
  unfolding find is_static route_view contains
  at_home live = elim (Bool-cases (has_role jwt_decode b everyone)) [
    | inl t ↦ inl (rw (at_static "/" _ refl refl) (rw live (rw t)))
    | inr f ↦ elim (Bool-cases (is_text (get_role jwt_decode b) "admin")) [
      | inl a ↦ absurd (cc (has_role_of_admin jwt_decode b everyone a refl))
      | inr o ↦ inr (rw (at_static "/" _ refl refl) (rw live (rw f (rw o))))
    ]
  ]

  -- What a route renders: a page, or a redirect to one of four locations.
  data Leads : View → Type 0 where
    to_page : (p : Page) → Leads (shows p)
    to_login : is_authenticated jwt_decode b now ≡ false → Leads (navigate "/login")
    to_home : is_authenticated jwt_decode b now ≡ true → Leads (navigate "/")
    to_admin :
        is_authenticated jwt_decode b now ≡ true
        → is_text (get_role jwt_decode b) "admin" ≡ true
        → Leads (navigate "/admin/users")
    to_refusal : Leads (navigate "/unauthorized")

  protected-Leads :
      (allowed : Option (List String)) (v : View)
      → Leads v
      → Leads (protected_route jwt_decode b now allowed v)
  unfolding protected_route
  protected-Leads none v l = elim (Bool-cases (is_authenticated jwt_decode b now)) [
    | inl live ↦ rw live l
    | inr off ↦ rw off (to_login off)
  ]
  protected-Leads (some roles) v l = elim (Bool-cases (is_authenticated jwt_decode b now)) [
    | inr off ↦ rw off (to_login off)
    | inl live ↦ elim (Bool-cases (has_role jwt_decode b roles)) [
      | inl has ↦ rw live (rw has l)
      | inr lacks ↦ elim (Bool-cases (is_text (get_role jwt_decode b) "admin")) [
        | inl a ↦ rw live (rw lacks (rw a (to_admin live a)))
        | inr o ↦ rw live (rw lacks (rw o to_refusal))
      ]
    ]
  ]

  page-Leads : (p : Page) → Leads (page_view jwt_decode b now p)
  unfolding page_view
  page-Leads login = elim (Bool-cases (is_authenticated jwt_decode b now)) [
    | inl live ↦ rw live (to_home live)
    | inr off ↦ rw off (to_page login)
  ]
  page-Leads p = to_page p

  element-Leads : (e : Element) → Leads (element_view jwt_decode b now e)
  unfolding element_view
  element-Leads (page p) = page-Leads p
  element-Leads role_home = elim (Bool-cases (is_authenticated jwt_decode b now)) [
    | inl live ↦ rw live (to_home live)
    | inr off ↦ rw off (to_login off)
  ]

  route-Leads : (r : Route) → Leads (route_view jwt_decode b now r)
  unfolding route_view
  route-Leads r = go r.allowed
    where
      go :
          (allowed : Option (List String))
          → Leads (route_view jwt_decode b now (record r { allowed = allowed }))
      go none = element-Leads r.element
      go (some roles) = protected-Leads (some roles) _ (element-Leads r.element)

  -- The target of a redirect shows a page after at most one more redirect.
  abbrev Settled : ℕ → String → Type 0
  Settled k path = (p : Page) × (visit jwt_decode b now match_route k path ≡ some (shows p))

  settle_refusal : (k : ℕ) → Settled k "/unauthorized"
  unfolding visit
  settle_refusal zero = (unauthorized, at_unauthorized)
  settle_refusal (suc k) = (unauthorized, rw (at_unauthorized, visit))

  settle_home : is_authenticated jwt_decode b now ≡ true → Settled 1 "/"
  unfolding visit
  settle_home live = elim (at_home live) [
    | inl e ↦ (dashboard, rw (e, visit))
    | inr e ↦ (unauthorized, rw (e, visit) at_unauthorized)
  ]

  -- Once its redirect is followed, a view is a page within one more redirect.
  settle_view :
      (path : String) (v : View)
      → app jwt_decode b now match_route path ≡ some v
      → Leads v
      → Settled 2 path
  unfolding visit
  settle_view path v e (to_page p) = (p, rw (e, visit))
  settle_view path v e (to_login off) = (login, rw (e, visit) (rw (at_login off, visit)))
  settle_view path v e (to_home live) = let (p, done) = settle_home live in (p, rw (e, visit) done)
  settle_view path v e (to_admin live a) = (admin, rw (e, visit) (rw (at_admin live a, visit)))
  settle_view path v e to_refusal = (unauthorized, rw (e, visit) (rw (at_unauthorized, visit)))

  app-Leads : (path : String) (v : View) → app jwt_decode b now match_route path ≡ some v → Leads v
  unfolding app
  app-Leads path v e = elim (Option-cases (match_route routes path)) [
    | inl missed ↦ absurd (router.total path missed)
    | inr (r, found) ↦ subst Leads (ground (arith, found)) (route-Leads r)
  ]

  app_total : (path : String) → app jwt_decode b now match_route path ≢ none
  unfolding app
  app_total path e = elim (Option-cases (match_route routes path)) [
    | inl missed ↦ router.total path missed
    | inr (r, found) ↦ cc (rw found at e)
  ]

  -- What is shown after a redirect is shown at some location directly.
  visit_step :
      (k : ℕ) (path : String) (p : Page) (v : View)
      → app jwt_decode b now match_route path ≡ some v
      → ((to : String)
          → visit jwt_decode b now match_route k to ≡ some (shows p)
          → Allowed jwt_decode b now p)
      → visit jwt_decode b now match_route (suc k) path ≡ some (shows p)
      → Allowed jwt_decode b now p
  unfolding visit
  visit_step k path p (shows q) seen ih e =
      app-Allowed jwt_decode b now match_route router path p (seen ∙ (rw (seen, visit) at e))
  visit_step k path p (navigate to) seen ih e = ih to (rw (seen, visit) at e)

  visit-Allowed :
      (k : ℕ) (path : String) (p : Page)
      → visit jwt_decode b now match_route k path ≡ some (shows p)
      → Allowed jwt_decode b now p
  unfolding visit
  visit-Allowed zero path p e = app-Allowed jwt_decode b now match_route router path p e
  visit-Allowed (suc k) path p e = elim (Option-cases (app jwt_decode b now match_route path)) [
    | inl blank ↦ absurd (app_total path blank)
    | inr (v, seen) ↦ visit_step k path p v seen (λ to. visit-Allowed k to p) e
  ]

  -- No location loops or stays blank: whatever is opened, by whatever login, a page is shown after
  -- at most two redirects, and it is a page that the login may open.
  pub visit_settles :
      (path : String)
      → (p : Page) × (visit jwt_decode b now match_route 2 path ≡ some (shows p))
        × Allowed jwt_decode b now p
  visit_settles path = elim (Option-cases (app jwt_decode b now match_route path)) [
    | inl blank ↦ absurd (app_total path blank)
    | inr (v, seen) ↦
        let (p, done) = settle_view path v seen (app-Leads path v seen) in
        (p, done, visit-Allowed 2 path p done)
  ]
