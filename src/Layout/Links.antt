-- ===== src/Layout/Links.antt =====
-- The navigation against the table of routes.
use forensic_chain.Common.{
  String, true, false, some, List, [], ◌∷◌, ◌≡◌, refl, inl, inr, arith, ◌==◌, contains,
  contains_iff, Holds, All, All-at, filter, Bool-cases, Option-cases,
}
use forensic_chain.Auth.{AuthView}
use forensic_chain.Routes.{
  uploaders, readers, Route, routes, everyone, investigator, forensic_analyst, legal_reviewer,
  admin_role,
}
use forensic_chain.Routes.Access.{is_static}
use forensic_chain.Layout.{is_visible, visible_nav, NavLink, nav_links, view}

abbrev pub targets : List NavLink → List String
targets [] = []
targets (l ∷ ls) = l.to ∷ targets ls

abbrev pub labels : List NavLink → List String
labels [] = []
labels (l ∷ ls) = l.label ∷ labels ls

-- No link for a role outside the four.
no_links : (role : String) → contains everyone role ≡ false → visible_nav (some role) ≡ []
unfolding visible_nav is_visible filter contains
no_links role other = elim (Bool-cases (role == "")) [
  | inl blank ↦ rw (strange.0, strange.1.0, strange.1.1.0, strange.1.1.1, blank)
  | inr named ↦ rw (strange.0, strange.1.0, strange.1.1.0, strange.1.1.1, named)
]
  where
    strange :
        ("investigator" == role ≡ false)
        × (("forensic_analyst" == role ≡ false)
            × (("legal_reviewer" == role ≡ false) × ("admin" == role ≡ false)))
    strange = (ground arith, (ground arith, (ground arith, ground arith)))

module _ (pathname role : String) where
  -- What the navigation gives each of the four roles is what it gives every role.
  linked :
      (path : String) (allowed : List String)
      → All
          (λ q.
            contains (targets (nav_links pathname (visible_nav (some q)))) path
            ≡ contains allowed q)
          everyone
      → All (λ q. Holds q everyone) allowed
      → contains (targets (nav_links pathname (visible_nav (some role)))) path
        ≡ contains allowed role
  unfolding contains
  linked path allowed named within = elim (Bool-cases (contains everyone role)) [
    | inl m ↦
        All-at
          (λ q.
            contains (targets (nav_links pathname (visible_nav (some q)))) path
            ≡ contains allowed q)
          everyone role named ((contains_iff everyone role).0 m)
    | inr other ↦ rw (no_links role other) (elim (Bool-cases (contains allowed role)) [
      | inr away ↦ rw (away, contains)
      | inl m ↦ absurd (
          cc (
            other,
            (contains_iff everyone role).1 (
                All-at (λ q. Holds q everyone) allowed role within
                  ((contains_iff allowed role).0 m)),
          ))
    ])
  ]

  abbrev pub IsLinked : Route → Type 0
  IsLinked r =
      (roles : List String)
      → is_static r.path ≡ true
      → r.allowed ≡ some roles
      → contains (targets (nav_links pathname (visible_nav (some role)))) r.path
        ≡ contains roles role

  same_roles : {a b : List String} → some a ≡ some b → a ≡ b
  same_roles e = cc

  -- The four roles in their order, as members of the list of all.
  as_investigator : Holds investigator everyone
  as_investigator = inl refl

  as_analyst : Holds forensic_analyst everyone
  as_analyst = inr (inl refl)

  as_reviewer : Holds legal_reviewer everyone
  as_reviewer = inr (inr (inl refl))

  as_admin : Holds admin_role everyone
  as_admin = inr (inr (inr (inl refl)))

  All-IsLinked : All IsLinked routes
  unfolding is_static contains visible_nav is_visible filter
  All-IsLinked = (
    λ roles st e. absurd (cc),
    (
      λ roles st e. absurd (cc),
      (
        λ roles st e. rw⁻¹ (same_roles e) (
            linked "/" everyone (refl, (refl, (refl, (refl, tt))))
              (as_investigator, (as_analyst, (as_reviewer, (as_admin, tt))))),
        (
          λ roles st e. absurd (cc),
          (
            λ roles st e. rw⁻¹ (same_roles e) (
                linked "/artifacts/upload" uploaders (refl, (refl, (refl, (refl, tt))))
                  (as_investigator, (as_analyst, tt))),
            (
              λ roles st e. rw⁻¹ (same_roles e) (
                  linked "/artifacts" readers (refl, (refl, (refl, (refl, tt))))
                    (as_investigator, (as_analyst, (as_reviewer, tt)))),
              (
                λ roles st e. absurd (cc),
                (
                  λ roles st e. rw⁻¹ (same_roles e) (
                      linked "/ledger" (legal_reviewer ∷ []) (refl, (refl, (refl, (refl, tt))))
                        (as_reviewer, tt)),
                  (
                    λ roles st e. absurd (cc),
                    (
                      λ roles st e. rw⁻¹ (same_roles e) (
                          linked "/admin/users" (admin_role ∷ []) (refl, (refl, (refl, (refl, tt))))
                            (as_admin, tt)),
                      (λ roles st e. absurd (cc), tt),
                    ),
                  ),
                ),
              ),
            ),
          ),
        ),
      ),
    ),
  )

-- The navigation and the guards of the routes agree: to a protected location with no parameter the
-- navigation has a link exactly when the role is one that its route admits.
pub nav-eq-contains :
    (to_upper : String → String) (auth : AuthView) (pathname role : String) (r : Route)
    (roles : List String)
    → auth.role ≡ some role
    → Holds r routes
    → is_static r.path ≡ true
    → r.allowed ≡ some roles
    → contains (targets (view to_upper auth pathname).nav) r.path ≡ contains roles role
unfolding view
nav-eq-contains to_upper auth pathname role r roles who held plain guarded =
    rw who (
      All-at (IsLinked pathname role) routes r (All-IsLinked pathname role) held roles plain
        guarded)

-- Texts that are all different.
abbrev pub Distinct : List String → Type 0
Distinct [] = Unit
Distinct (x ∷ xs) = (contains xs x ≡ false) × Distinct xs

-- Whatever the role, no two links that the navigation shows have the same label, which is their key,
-- or the same target.
pub nav-Distinct :
    (to_upper : String → String) (auth : AuthView) (pathname : String)
    → Distinct (labels (view to_upper auth pathname).nav)
      × Distinct (targets (view to_upper auth pathname).nav)
unfolding view visible_nav is_visible filter contains
nav-Distinct to_upper auth pathname = elim (Option-cases auth.role) [
  | inl nobody ↦ rw nobody (tt, tt)
  | inr (role, who) ↦ elim (Bool-cases (contains everyone role)) [
    | inl m ↦ rw who (
        All-at
          (λ q.
            Distinct (labels (nav_links pathname (visible_nav (some q))))
            × Distinct (targets (nav_links pathname (visible_nav (some q)))))
          everyone role
          (
            ((refl, (refl, (refl, tt))), (refl, (refl, (refl, tt)))),
            (
              ((refl, (refl, (refl, tt))), (refl, (refl, (refl, tt)))),
              (
                ((refl, (refl, (refl, tt))), (refl, (refl, (refl, tt)))),
                (((refl, (refl, tt)), (refl, (refl, tt))), tt),
              ),
            ),
          )
          ((contains_iff everyone role).0 m))
    | inr other ↦ rw who (rw (no_links role other) (tt, tt))
  ]
]
