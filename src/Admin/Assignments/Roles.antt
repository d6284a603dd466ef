-- ===== src/Admin/Assignments/Roles.antt =====
-- The role with which a user is assigned to a case.
use forensic_chain.Common.{
  String, true, false, some, List, [], ◌∷◌, ◌≡◌, refl, sym, ◌≢◌, ◌⊎◌, inl, inr, arith, ◌==◌, eq_iff,
  Bool-cases, Option-cases, is_truthy, Holds, Holds-filter, find, find-eq-some, ne_of_test,
}
use forensic_chain.Api.{AdminUser, Case, CaseAssignment}
use forensic_chain.Api.Endpoints
use forensic_chain.Http.{Browser, Reply, resolved, rejected, on_request}
use forensic_chain.Admin.Assignments.{
  State, init, is_assignable, assignable_users, load_settled, pick_user, assign_started,
  assign_settled, remove_settled, view,
}

abbrev pub usernames : List AdminUser → List String
usernames [] = []
usernames (u ∷ us) = u.username ∷ usernames us

-- What can happen to the modal of a case, with the list of users that the page has by then. That list
-- is empty until it has been loaded; the selector offers the blank option and the assignable users;
-- the form is sent by its button.
pub data Step (c : Case) (users : List AdminUser) (s : State)
    : List AdminUser → State → Type 0 where
  users_came : (us : List AdminUser) → users ≡ [] → Step c users s us s
  loaded : (r : Reply (List CaseAssignment)) → Step c users s users (load_settled r s)
  picked :
      (name : String)
      → (name ≡ "") ⊎ Holds name (usernames (assignable_users users))
      → Step c users s users (pick_user users name s)
  assign :
      (b : Browser) (locale_date : String → String)
      → (view locale_date c users s).assign_disabled ≡ false
      → Step c users s users (assign_started b c s).0
  assigned : (r : Reply CaseAssignment) → Step c users s users (assign_settled r s)
  removed : (id : String) (r : Reply (Unit {0})) → Step c users s users (remove_settled id r s)

pub data Reach (c : Case) : List AdminUser → State → Type 0 where
  here : Reach c [] init
  next :
      {users us : List AdminUser} {s t : State}
      → Reach c users s
      → Step c users s us t
      → Reach c us t

-- Nobody is chosen, or the role shown is that of the chosen user.
abbrev pub HasOwnRole : List AdminUser → State → Type 0
HasOwnRole users s =
    (s.username ≡ "")
    ⊎ ((u : AdminUser) × Holds u (assignable_users users)
        × (u.username ≡ s.username)
        × (u.role ≡ s.role_in_case))

find-usernames :
    (us : List AdminUser) (name : String)
    → Holds name (usernames us)
    → (u : AdminUser) × (find (λ u. u.username == name) us ≡ some u)
unfolding find
find-usernames [] name h = absurd h
find-usernames (u ∷ us) name h = elim (Bool-cases (u.username == name)) [
  | inl same ↦ (u, rw same)
  | inr other ↦ elim h [
    | inl e ↦ absurd (cc (other, (eq_iff u.username name).1 (sym e)))
    | inr m ↦ let (v, found) = find-usernames us name m in (v, rw other found)
  ]
]

pick_user-HasOwnRole :
    (users : List AdminUser) (name : String) (s : State)
    → (name ≡ "") ⊎ Holds name (usernames (assignable_users users))
    → HasOwnRole users (pick_user users name s)
unfolding pick_user
pick_user-HasOwnRole users name s (inl blank) =
    elim (Option-cases (find (λ u. u.username == name) (assignable_users users))) [
      | inl missed ↦ rw (missed, pick_user) (inl blank)
      | inr (u, found) ↦ rw (found, pick_user) (inl blank)
    ]
pick_user-HasOwnRole users name s (inr offered) =
    let (u, found) = find-usernames (assignable_users users) name offered in
    let (held, named) = find-eq-some (λ u. u.username == name) (assignable_users users) u found in
    rw (found, pick_user) (inr (u, held, (eq_iff u.username name).0 named, refl))

Step-HasOwnRole :
    {c : Case} {users us : List AdminUser} {s t : State}
    → Step c users s us t
    → HasOwnRole users s
    → HasOwnRole us t
unfolding load_settled assign_started assign_settled remove_settled assignable_users
Step-HasOwnRole (users_came us empty) (inl blank) = inl blank
Step-HasOwnRole (users_came us empty) (inr (u, held, named, own)) = absurd (rw empty at held)
Step-HasOwnRole (loaded (resolved xs)) h = h
Step-HasOwnRole (loaded (rejected err)) h = h
Step-HasOwnRole {users = users} {s = s} (picked name offered) h =
    pick_user-HasOwnRole users name s offered
Step-HasOwnRole {s = s} (assign b locale_date ready) h = elim (Bool-cases (s.username == "")) [
  | inl blank ↦ rw blank h
  | inr named ↦ rw named h
]
Step-HasOwnRole (assigned (resolved a)) h = inl refl
Step-HasOwnRole (assigned (rejected err)) h = h
Step-HasOwnRole (removed id (resolved _)) h = h
Step-HasOwnRole (removed id (rejected err)) h = h

Reach-HasOwnRole :
    {c : Case} {users : List AdminUser} {s : State} → Reach c users s → HasOwnRole users s
Reach-HasOwnRole here = inl refl
Reach-HasOwnRole (next r st) = Step-HasOwnRole st (Reach-HasOwnRole r)

-- Whatever was done in the modal before, its button, when it can be pressed, assigns an active user
-- of the list who is no admin, to this case, which is not closed, and with the user's own role.
pub assign_sends :
    (locale_date : String → String) (b : Browser) {c : Case} {users : List AdminUser} {s : State}
    → Reach c users s
    → (view locale_date c users s).assign_disabled ≡ false
    → (u : AdminUser) × Holds u users
      × (u.is_active ≡ true)
      × (u.role ≢ "admin")
      × (c.status ≢ "CLOSED")
      × ((assign_started b c s).1
          ≡ some (on_request b (Endpoints.create_assignment c.id u.username u.role)))
unfolding assign_started view assignable_users is_assignable
assign_sends locale_date b {c} {users} {s} r ready =
    let named : is_truthy s.username ≡ true = ground arith in
    let open_case : c.status == "CLOSED" ≡ false = ground arith in
    elim (Reach-HasOwnRole r) [
      | inl blank ↦ absurd (cc (rw blank at named))
      | inr (u, held, same, own) ↦
          let (listed, fit) = (Holds-filter is_assignable users u).0 held in
          let not_admin : u.role == "admin" ≡ false = ground arith in
          (
            u,
            listed,
            ground arith,
            ne_of_test u.role "admin" not_admin,
            ne_of_test c.status "CLOSED" open_case,
            rw (named, same, own),
          )
    ]
