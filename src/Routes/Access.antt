-- ===== src/Routes/Access.antt =====
-- Which pages a login can see: the table of App.tsx together with ProtectedRoute.tsx and LoginPage.tsx.
use Prim.Native.Char.{code}
use forensic_chain.Common.{
  ℕ, String, Bool, true, false, Option, none, some, List, [], ◌∷◌, ◌≡◌, refl, ◌≢◌, ◌⊎◌, ◌↔◌, arith,
  Bool-cases, Option-cases, subst, sym, ap, inl, inr, Holds, All, All-at, contains, contains_iff,
  find, eqb, not, ◌&&◌, ◌||◌, ◌==◌,
}
use forensic_chain.Http.{Browser}
use forensic_chain.Auth.{JwtPayload, decode_token, is_authenticated, has_role}
use forensic_chain.Auth.Roles.{HasRole, has_role-HasRole, HasRole-has_role}
use forensic_chain.Routes.{
  Page, login, unauthorized, dashboard, cases, upload, artifact_list, artifact_detail, ledger,
  reports, admin, shows, page, role_home, Route, routes, investigator, forensic_analyst,
  legal_reviewer, admin_role, everyone, readers, uploaders, protected_route, page_view, route_view,
  app,
}

-- A pattern of react-router with no parameter and no splat.
unfoldable pub is_static : String → Bool
is_static String.[] = true
is_static (String.◌∷◌ c s) = not (eqb (code c) b':' || eqb (code c) b'*') && is_static s

-- What the client relies on of react-router's matching: it returns a route of the table; a
-- location spelled like a static pattern of the table goes to that route, before any dynamic one;
-- and the pattern `*` matches what no other does.
pub record IsRouter (match_route : List Route → String → Option Route) : Type 0 where
  pub listed : (path : String) (r : Route) → match_route routes path ≡ some r → Holds r routes
  pub static :
      (path : String) (r : Route)
      → find (λ r. r.path == path) routes ≡ some r
      → is_static path ≡ true
      → match_route routes path ≡ some r
  pub total : (path : String) → match_route routes path ≢ none

-- The pages of each role, one role at a time.
abbrev pub MayView : Page → String → Type 0
MayView login role = Unit
MayView unauthorized role = Unit
MayView dashboard role =
    (role ≡ investigator)
    ⊎ (role ≡ forensic_analyst)
    ⊎ (role ≡ legal_reviewer)
    ⊎ (role ≡ admin_role)
MayView cases role =
    (role ≡ investigator)
    ⊎ (role ≡ forensic_analyst)
    ⊎ (role ≡ legal_reviewer)
    ⊎ (role ≡ admin_role)
MayView upload role = (role ≡ investigator) ⊎ (role ≡ forensic_analyst)
MayView artifact_list role =
    (role ≡ investigator) ⊎ (role ≡ forensic_analyst) ⊎ (role ≡ legal_reviewer)
MayView artifact_detail role =
    (role ≡ investigator) ⊎ (role ≡ forensic_analyst) ⊎ (role ≡ legal_reviewer)
MayView ledger role = role ≡ legal_reviewer
MayView reports role = role ≡ legal_reviewer
MayView admin role = role ≡ admin_role

module _ (jwt_decode : String → Option JwtPayload) (b : Browser) (now : ℕ) where
  -- The stored token decodes, has not expired, and names a role that may view the page.
  abbrev pub MayOpen : Page → Type 0
  MayOpen p =
      (payload : JwtPayload) × (decode_token jwt_decode b ≡ some payload)
      × (is_authenticated jwt_decode b now ≡ true)
      × MayView p payload.role

  abbrev pub Allowed : Page → Type 0
  Allowed login = is_authenticated jwt_decode b now ≡ false
  Allowed unauthorized = Unit
  Allowed p = MayOpen p

  protected_shows :
      (roles : List String) (q p : Page)
      → protected_route jwt_decode b now (some roles) (shows q) ≡ shows p
      → (q ≡ p) × (is_authenticated jwt_decode b now ≡ true) × HasRole jwt_decode b roles
  unfolding protected_route
  protected_shows roles q p e = elim (Bool-cases (has_role jwt_decode b roles)) [
    | inl t ↦ (ground arith, ground arith, has_role-HasRole jwt_decode b roles t)
    | inr f ↦ absurd (ground arith)
  ]

  -- What a route shows, and to whom: exactly its own page, and exactly to the allowed logins.
  abbrev pub Sees : Route → Type 0
  Sees r =
      (p : Page) → (route_view jwt_decode b now r ≡ shows p) ↔ ((r.element ≡ page p) × Allowed p)

  -- A protected route, from what its list of roles says.
  see_protected :
      (path : String) (roles : List String) (q : Page)
      → (page_view jwt_decode b now q ≡ shows q)
      → ((role : String) → Holds role roles ↔ MayView q role)
      → contains roles "" ≡ false
      → (Allowed q ↔ MayOpen q)
      → Sees (record { path = path; allowed = some roles; element = page q })
  unfolding route_view
  see_protected path roles q plain views named opens p = (there, back)
    where
      there :
          route_view jwt_decode b now
              (record { path = path; allowed = some roles; element = page q })
            ≡ shows p
          → (page q ≡ page p) × Allowed p
      there e =
          let (same, live, has) = protected_shows roles q p (rw plain at e) in
          (
            ap page same,
            subst Allowed same
                (opens.1 (has.payload, has.decoded, live, (views has.payload.role).0 has.listed)),
          )

      back :
          (page q ≡ page p) × Allowed p
          → route_view jwt_decode b now
              (record { path = path; allowed = some roles; element = page q })
            ≡ shows p
      back (same, ok) =
          let same' : q ≡ p = cc in
          let (payload, decoded, live, view) = opens.0 (subst Allowed (sym same') ok) in
          let held = (views payload.role).1 view in
          let has : has_role jwt_decode b roles ≡ true =
            HasRole-has_role jwt_decode b roles (record {
              payload = payload;
              decoded = decoded;
              named =
                  λ e. cc (named, (contains_iff roles "").1 (subst (λ r. Holds r roles) e held));
              listed = held;
            }) in
          rw plain (rw (live, protected_route) (rw has (ap shows same')))

  see_login : Sees (record { path = "/login"; allowed = none; element = page login })
  unfolding route_view
  see_login p = elim (Bool-cases (is_authenticated jwt_decode b now)) [
    | inl t ↦ (
      (λ e. absurd (ground arith)),
      λ (same, ok).
          let off : is_authenticated jwt_decode b now ≡ false =
            subst Allowed (let back : p ≡ login = cc in back) ok in
          absurd (cc),
    )
    | inr f ↦ (
      (λ e. let same : login ≡ p = ground arith in (ap page same, subst Allowed same f)),
      λ (same, ok). ground arith,
    )
  ]

  see_unauthorized :
      Sees (record { path = "/unauthorized"; allowed = none; element = page unauthorized })
  unfolding route_view
  see_unauthorized p = (
    (λ e. let same : unauthorized ≡ p = ground arith in (ap page same, subst Allowed same tt)),
    λ (same, ok). ground arith,
  )

  see_home : Sees (record { path = "*"; allowed = none; element = role_home })
  unfolding route_view
  see_home p = ((λ e. absurd (ground arith)), λ (same, ok). cc)

  All-Sees : All Sees routes
  unfolding page_view contains
  All-Sees = (
    see_login,
    (
      see_unauthorized,
      (
        see_protected "/" everyone dashboard refl (λ role. ground arith) refl same,
        (
          see_protected "/cases/:caseId" everyone cases refl (λ role. ground arith) refl same,
          (
            see_protected "/artifacts/upload" uploaders upload refl (λ role. ground arith) refl
                same,
            (
              see_protected "/artifacts" readers artifact_list refl (λ role. ground arith) refl
                  same,
              (
                see_protected "/artifacts/:id" readers artifact_detail refl (λ role. ground arith)
                    refl same,
                (
                  see_protected "/ledger" (legal_reviewer ∷ []) ledger refl (λ role. ground arith)
                      refl same,
                  (
                    see_protected "/reports/:artifactId" (legal_reviewer ∷ []) reports refl
                        (λ role. ground arith) refl same,
                    (
                      see_protected "/admin/users" (admin_role ∷ []) admin refl
                          (λ role. ground arith) refl same,
                      (see_home, tt),
                    ),
                  ),
                ),
              ),
            ),
          ),
        ),
      ),
    ),
  )
    where
      same : {A : Type 0} → A ↔ A
      same = (λ a. a, λ a. a)

  -- Every route of the table shows its own page and no other, and shows it exactly to the logins
  -- that may open it: the login page to a client with no live token, the page of a refusal to
  -- everybody, and any other page to a live token that names one of the page's roles.
  pub route_view-eq-shows_iff :
      (r : Route) (p : Page)
      → Holds r routes
      → (route_view jwt_decode b now r ≡ shows p) ↔ ((r.element ≡ page p) × Allowed p)
  route_view-eq-shows_iff r p held = All-at Sees routes r All-Sees held p

  -- Whatever location is opened, a page that is shown there is one that the login may open.
  pub app-Allowed :
      (match_route : List Route → String → Option Route)
      → IsRouter match_route
      → (path : String) (p : Page) → app jwt_decode b now match_route path ≡ some (shows p)
      → Allowed p
  unfolding app
  app-Allowed match_route router path p e = elim (Option-cases (match_route routes path)) [
    | inl missed ↦ absurd (router.total path missed)
    | inr (r, found) ↦
        ((route_view-eq-shows_iff r p (router.listed path r found)).0 (ground (arith, found))).1
  ]
