-- ===== src/Admin/Users/Order.antt =====
-- The order of the users, when they are loaded and later on.
use forensic_chain.Common.{
  ℕ, ◌≤◌, String, Bool, List, [], ◌∷◌, ◌≡◌, refl, ◌∙◌, inl, inr, arith, ◌==◌, not, eqb, Bool-cases,
  Option-cases, filter, find, All,
}
use forensic_chain.Api.{AdminUser}
use forensic_chain.Http.{Browser, Reply, resolved, rejected}
use forensic_chain.Admin.{Button}
use forensic_chain.Admin.Users.{
  goes_after, insert_user, sort_users, State, init, load_settled, open_menu_for, close_menu,
  set_modal, delete_started, delete_clicked, delete_settled, created,
}

module _ (time : String → ℕ) where
  -- No user of the list was created after `t`.
  abbrev pub NotNewer : ℕ → List AdminUser → Type 0
  NotNewer t us = All (λ v. time v.created_at ≤ t) us

  -- Newest first.
  abbrev pub IsSorted : List AdminUser → Type 0
  IsSorted [] = Unit
  IsSorted (u ∷ us) = NotNewer (time u.created_at) us × IsSorted us

  -- The users of one time, in their order.
  abbrev pub of_time : ℕ → List AdminUser → List AdminUser
  of_time t us = filter (λ u. eqb (time u.created_at) t) us

  NotNewer-le : (t k : ℕ) (us : List AdminUser) → t ≤ k → NotNewer t us → NotNewer k us
  NotNewer-le t k [] le h = tt
  NotNewer-le t k (u ∷ us) le (e, h) = (omega arith, NotNewer-le t k us le h)

  NotNewer-insert_user :
      (t : ℕ) (u : AdminUser) (us : List AdminUser)
      → time u.created_at ≤ t
      → NotNewer t us
      → NotNewer t (insert_user time u us)
  unfolding insert_user
  NotNewer-insert_user t u [] le h = (le, tt)
  NotNewer-insert_user t u (v ∷ vs) le (e, h) = elim (Bool-cases (goes_after time u v)) [
    | inl after ↦ rw after (e, NotNewer-insert_user t u vs le h)
    | inr before ↦ rw before (le, (e, h))
  ]

  insert_user-IsSorted :
      (u : AdminUser) (us : List AdminUser) → IsSorted us → IsSorted (insert_user time u us)
  unfolding insert_user goes_after
  insert_user-IsSorted u [] h = (tt, tt)
  insert_user-IsSorted u (v ∷ vs) (newest, h) = elim (Bool-cases (goes_after time u v)) [
    | inl after ↦ rw after (
      NotNewer-insert_user (time v.created_at) u vs (ground arith) newest,
      insert_user-IsSorted u vs h,
    )
    | inr before ↦ rw before (
      (ground arith, NotNewer-le (time v.created_at) (time u.created_at) vs (ground arith) newest),
      (newest, h),
    )
  ]

  sort_users-IsSorted : (us : List AdminUser) → IsSorted (sort_users time us)
  unfolding sort_users
  sort_users-IsSorted [] = tt
  sort_users-IsSorted (u ∷ us) =
      insert_user-IsSorted u (sort_users time us) (sort_users-IsSorted us)

  insert_user-of_time :
      (t : ℕ) (u : AdminUser) (us : List AdminUser)
      → of_time t (insert_user time u us) ≡ of_time t (u ∷ us)
  unfolding insert_user goes_after filter
  insert_user-of_time t u [] = refl
  insert_user-of_time t u (v ∷ vs) = ground (arith, insert_user-of_time t u vs)

  sort_users-of_time : (t : ℕ) (us : List AdminUser) → of_time t (sort_users time us) ≡ of_time t us
  unfolding sort_users filter
  sort_users-of_time t [] = refl
  sort_users-of_time t (u ∷ us) =
      insert_user-of_time t u (sort_users time us) ∙ ground (arith, sort_users-of_time t us)

  -- The list of users is loaded in the order of their dates, the newest first; it holds exactly the
  -- users of the reply, and those of the same date stand in the order of the reply.
  pub load_settled-IsSorted :
      (users : List AdminUser) (s : State)
      → IsSorted (load_settled time (resolved users) s).users
        × ((t : ℕ) → of_time t (load_settled time (resolved users) s).users ≡ of_time t users)
  unfolding load_settled
  load_settled-IsSorted users s = (sort_users-IsSorted users, λ t. sort_users-of_time t users)

  -- What can happen to the list. A user is created later than all that are listed.
  pub data Step (s : State) : State → Type 0 where
    loaded : (r : Reply (List AdminUser)) → Step s (load_settled time r s)
    menu :
        (inner_height : ℕ) (r : Button) (id : String) → Step s (open_menu_for inner_height r id s)
    menu_shut : Step s (close_menu s)
    modal : (shown : Bool) → Step s (set_modal shown s)
    delete : (b : Browser) (confirmed : Bool) → Step s (delete_clicked b confirmed s).0
    deleted : (id : String) (r : Reply (Unit {0})) → Step s (delete_settled id r s)
    added : (u : AdminUser) → NotNewer (time u.created_at) s.users → Step s (created u s)

  pub data Reach : State → Type 0 where
    here : Reach init
    next : {s t : State} → Reach s → Step s t → Reach t

  filter-NotNewer :
      (p : AdminUser → Bool) (t : ℕ) (us : List AdminUser)
      → NotNewer t us
      → NotNewer t (filter p us)
  unfolding filter
  filter-NotNewer p t [] h = tt
  filter-NotNewer p t (u ∷ us) (e, h) = elim (Bool-cases (p u)) [
    | inl keep ↦ rw keep (e, filter-NotNewer p t us h)
    | inr drop ↦ rw drop (filter-NotNewer p t us h)
  ]

  filter-IsSorted :
      (p : AdminUser → Bool) (us : List AdminUser) → IsSorted us → IsSorted (filter p us)
  unfolding filter
  filter-IsSorted p [] h = tt
  filter-IsSorted p (u ∷ us) (e, h) = elim (Bool-cases (p u)) [
    | inl keep ↦ rw keep (filter-NotNewer p (time u.created_at) us e, filter-IsSorted p us h)
    | inr drop ↦ rw drop (filter-IsSorted p us h)
  ]

  delete_clicked-users :
      (b : Browser) (confirmed : Bool) (s : State)
      → (delete_clicked b confirmed s).0.users ≡ s.users
  unfolding delete_clicked delete_started
  delete_clicked-users b confirmed s = elim (Option-cases s.open_menu) [
    | inl shut ↦ rw shut
    | inr (id, shown) ↦ elim (Option-cases (find (λ u. u.id == id) s.users)) [
      | inl gone ↦ rw (shown, delete_clicked) (rw gone)
      | inr (u, found) ↦ elim (Bool-cases confirmed) [
        | inl sure ↦ rw (shown, delete_clicked) (rw found (rw sure))
        | inr unsure ↦ rw (shown, delete_clicked) (rw found (rw unsure))
      ]
    ]
  ]

  Step-IsSorted : {s t : State} → Step s t → IsSorted s.users → IsSorted t.users
  unfolding load_settled open_menu_for close_menu set_modal delete_settled created
  Step-IsSorted (loaded (resolved users)) h = sort_users-IsSorted users
  Step-IsSorted (loaded (rejected err)) h = h
  Step-IsSorted (menu inner_height r id) h = h
  Step-IsSorted menu_shut h = h
  Step-IsSorted (modal shown) h = h
  Step-IsSorted {s = s} (delete b confirmed) h = rw (delete_clicked-users b confirmed s) h
  Step-IsSorted {s = s} (deleted id (resolved _)) h =
      filter-IsSorted (λ u. not (u.id == id)) s.users h
  Step-IsSorted (deleted id (rejected err)) h = h
  Step-IsSorted (added u newest) h = (newest, h)

  -- As long as each created user is the newest, the tab lists the users newest first, in whatever
  -- order loads, creations, menus and deletions come.
  pub Reach-IsSorted : {s : State} → Reach s → IsSorted s.users
  Reach-IsSorted here = tt
  Reach-IsSorted (next r st) = Step-IsSorted st (Reach-IsSorted r)
