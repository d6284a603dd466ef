-- ===== src/Admin/Users/Menu.antt =====
-- The menu of a user: where it opens, and what its entry deletes.
use forensic_chain.Common.{
  ℕ, ◌+◌, ◌*◌, ◌-◌, ◌≤◌, ◌<◌, String, Bool, true, some, ◌≡◌, sym, ap, ◌∙◌, ◌≢◌, ◌⊎◌, ◌↔◌, inl, inr,
  arith, ◌==◌, eq_iff, not, ltb, Bool-cases, Option-cases, Holds, Holds-filter, find, find-eq-some,
}
use forensic_chain.Api.{AdminUser}
use forensic_chain.Api.Endpoints
use forensic_chain.Http.{Browser, HttpRequest, resolved, on_request}
use forensic_chain.Admin.{Button, menu_anchor}
use forensic_chain.Admin.Users.{State, delete_started, delete_clicked, delete_settled}

-- In a window with room for the button and twice the menu with its gap, a menu lies inside the
-- window, and does not cover the button.
pub menu_fits :
    (drop_h inner_height : ℕ) (r : Button)
    → r.top ≤ r.bottom
    → r.bottom ≤ inner_height
    → r.bottom + 2 * (drop_h + 4) ≤ inner_height + r.top
    → let a = menu_anchor drop_h inner_height r in
      (a.minus ≤ a.plus)
      × (a.plus - a.minus + drop_h ≤ inner_height)
      × ((r.bottom < a.plus - a.minus) ⊎ (a.plus - a.minus + drop_h < r.top))
unfolding menu_anchor
menu_fits drop_h inner_height r high inside room =
    elim (Bool-cases (ltb (r.bottom + 4 + drop_h) inner_height)) [
      | inl below ↦ rw below (omega arith, ground arith, inl (omega arith))
      | inr above ↦ rw above (ground arith, ground arith, inr (ground arith))
    ]

-- The user that a deletion is asked for.
pub record Target (b : Browser) (confirmed : Bool) (s : State) (r : HttpRequest) : Type 0 where
  pub sure : confirmed ≡ true
  pub user : AdminUser
  pub shown : s.open_menu ≡ some user.id
  pub listed : Holds user s.users
  pub asks : on_request b (Endpoints.delete_user user.id) ≡ r

-- The entry of the menu asks for no deletion but a confirmed one of the listed user that the menu is
-- open for.
pub delete_clicked-Target :
    (b : Browser) (confirmed : Bool) (s : State) (r : HttpRequest)
    → (delete_clicked b confirmed s).1 ≡ some r
    → Target b confirmed s r
unfolding delete_clicked delete_started
delete_clicked-Target b confirmed s r e = elim (Option-cases s.open_menu) [
  | inl shut ↦ absurd (cc (rw (shut, delete_clicked) at e))
  | inr (id, shown) ↦ elim (Option-cases (find (λ v. v.id == id) s.users)) [
    | inl gone ↦ absurd (cc (rw (gone, delete_clicked) at (rw (shown, delete_clicked) at e)))
    | inr (u, found) ↦
        let (held, hit) = find-eq-some (λ v. v.id == id) s.users u found in
        let same : u.id ≡ id = (eq_iff u.id id).0 hit in
        let asked = rw (found, delete_clicked) at (rw (shown, delete_clicked) at e) in
        elim (Bool-cases confirmed) [
          | inr unsure ↦ absurd (cc (rw (unsure, delete_started) at asked))
          | inl sure ↦ record {
            sure = sure;
            user = u;
            shown = shown ∙ ap some (sym same);
            listed = held;
            asks = cc (rw (sure, delete_started) at asked);
          }
        ]
  ]
]

-- Once a deletion is confirmed by the server, the tab lists exactly the other users.
pub delete_settled_iff :
    (id : String) (s : State) (u : AdminUser)
    → Holds u (delete_settled id (resolved tt) s).users ↔ (Holds u s.users × (u.id ≢ id))
unfolding delete_settled
delete_settled_iff id s u =
    let p : AdminUser → Bool = (λ v. not (v.id == id)) in
    (
      (λ h.
          let (old, ok) = (Holds-filter p s.users u).0 h in
          (old, λ e. cc (ok, (eq_iff u.id id).1 e))),
      λ (old, other). (Holds-filter p s.users u).1 (
        old,
        elim (Bool-cases (u.id == id)) [
          | inl same ↦ absurd (other ((eq_iff u.id id).0 same))
          | inr differs ↦ rw differs
        ],
      ),
    )
