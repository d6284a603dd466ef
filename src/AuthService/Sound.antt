-- ===== src/AuthService/Sound.antt =====
-- What every table keeps, whatever the handlers do.
use forensic_chain.Common.{
  ℕ, String, Bool, true, false, Option, none, some, [], ◌∷◌, ◌++◌, ◌≡◌, ◌≢◌, refl, sym, ◌∙◌, ap,
  subst, inl, inr, arith, eq_iff, ne_of_test, ◌==◌, not, is_some, Holds, Holds-filter, filter, find,
  find-eq-some, contains, if◌then◌else◌,
}
use forensic_chain.Python.{
  Answer, answered, http_error, Gives, Gives-value, Gives-error, and_then-Gives,
}
use forensic_chain.AuthService.Store.{User, Case, CaseAssignment, AuthDb, is_for}
use forensic_chain.AuthService.Tables.{
  Holds-snoc, find-none, Determines, Determines-snoc, Determines-filter,
}
use forensic_chain.AuthService.Admin.{
  Caller, Fresh, allowed_roles, commit_with, new_user, checked_user, create_user, delete_user,
  new_assignment, open_case, checked_assignment, create_assignment, delete_assignment,
  require_admin,
}

abbrev pub pair_of : CaseAssignment → String × String
pair_of a = (a.case_id, a.username)

-- A username, a case number and the id of a case name one row, and so do a case and a user among the assignments. Each
-- assignment is to a case that exists, in a role that may be assigned.
pub record IsSound (db : AuthDb) : Type 0 where
  pub usernames : Determines (λ u. u.username) (λ u. u.id) db.users
  pub numbers : Determines (λ k. k.case_number) (λ k. k.id) db.cases
  pub ids : Determines (λ k. k.id) (λ k. k.case_number) db.cases
  pub pairs : Determines pair_of (λ a. a.id) db.assignments
  pub cases_exist :
      (a : CaseAssignment)
      → Holds a db.assignments
      → (k : Case) × Holds k db.cases × (k.id ≡ a.case_id)
  pub roles :
      (a : CaseAssignment) → Holds a db.assignments → contains allowed_roles a.role_in_case ≡ true

pub commit_with-keeps :
    {A : Type 0} (P : AuthDb → Type 0) (db : AuthDb) (m : Answer A) (f : A → AuthDb)
    → P db
    → Gives (λ a. P (f a)) m
    → P (commit_with db m f).0
unfolding commit_with Gives
commit_with-keeps P db (answered a) f h g = g
commit_with-keeps P db (http_error status detail) f h g = h

Gives-all : {A : Type 0} (P : A → Type 0) (m : Answer A) → ((a : A) → P a) → Gives P m
Gives-all P (answered a) h = Gives-value P a (h a)
Gives-all P (http_error status detail) h = Gives-error P status detail

pub Gives-when :
    {A : Type 0} (P : A → Type 0) (m : Answer A) → ((a : A) → m ≡ answered a → P a) → Gives P m
Gives-when P (answered a) h = Gives-value P a (h a refl)
Gives-when P (http_error status detail) h = Gives-error P status detail

-- Either branch of a test that refuses.
pub refuse-Gives :
    {A : Type 0} (P : A → Type 0) (b : Bool) (status : ℕ) (detail : String) (m : Answer A)
    → (b ≡ false → Gives P m)
    → Gives P (if b then http_error status detail else m)
refuse-Gives P true status detail m h = Gives-error P status detail
refuse-Gives P false status detail m h = h refl

pub create_user-IsSound :
    (hashpw : String → String) (c : Caller) (fresh : Fresh) (db : AuthDb)
    (username password role : String)
    → IsSound db
    → IsSound (create_user hashpw c fresh db username password role).0
unfolding create_user checked_user new_user
create_user-IsSound hashpw c fresh db username password role h =
    let P = λ (u : User). IsSound (record db { users = db.users ++ u ∷ [] }) in
    let u = new_user hashpw fresh username password role in
    commit_with-keeps IsSound db (checked_user hashpw c fresh db username password role)
      (λ v. record db { users = db.users ++ v ∷ [] }) h
      (and_then-Gives P (require_admin c) _ (λ _ _.
        refuse-Gives P (not (contains allowed_roles role)) _ _ _ (λ allowed.
          refuse-Gives P (is_some (find (λ v. v.username == username) db.users)) _ _ _ (λ absent.
            Gives-value P u (record {
              usernames =
                  Determines-snoc (λ v. v.username) (λ v. v.id) u db.users
                    (λ v held.
                      ne_of_test v.username username
                        (find-none (λ w. w.username == username) db.users v absent held))
                    h.usernames;
              numbers = h.numbers;
              ids = h.ids;
              pairs = h.pairs;
              cases_exist = h.cases_exist;
              roles = h.roles;
            })))))

pub delete_user-IsSound :
    (c : Caller) (db : AuthDb) (user_id : String)
    → IsSound db
    → IsSound (delete_user c db user_id).0
unfolding delete_user
delete_user-IsSound c db user_id h =
    let P =
      λ (u : User). IsSound (record db { users = filter (λ v. not (v.id == u.id)) db.users }) in
    commit_with-keeps IsSound db _
      (λ u. record db { users = filter (λ v. not (v.id == u.id)) db.users }) h
      (Gives-all P _ (λ u. record {
        usernames =
            Determines-filter (λ v. v.username) (λ v. v.id) (λ v. not (v.id == u.id)) db.users
              h.usernames;
        numbers = h.numbers;
        ids = h.ids;
        pairs = h.pairs;
        cases_exist = h.cases_exist;
        roles = h.roles;
      }))

open_case-answered : (o : Option Case) (k : Case) → open_case o ≡ answered k → o ≡ some k
unfolding open_case
open_case-answered none k e = cc
open_case-answered (some l) k e = ground (arith, e)

found_case :
    (db : AuthDb) (case_id : String) (k : Case)
    → open_case (find (λ l. l.id == case_id) db.cases) ≡ answered k
    → Holds k db.cases × (k.id ≡ case_id)
found_case db case_id k e =
    let (held, same) = find-eq-some (λ l. l.id == case_id) db.cases k (open_case-answered _ k e) in
    (held, (eq_iff k.id case_id).0 same)

same_pair :
    (db : AuthDb) (a b : CaseAssignment)
    → is_some (find (is_for a.case_id a.username) db.assignments) ≡ false
    → Holds b db.assignments
    → pair_of b ≢ pair_of a
unfolding is_for
same_pair db a b absent old e =
    let off = find-none (is_for a.case_id a.username) db.assignments b absent old in
    let first = (eq_iff b.case_id a.case_id).1 (ap (λ p. p.0) e) in
    let second = (eq_iff b.username a.username).1 (ap (λ p. p.1) e) in
    absurd (ground (arith, off, first, second))

-- An assignment to a case that exists keeps the tables sound, when the case has none of that user.
add-IsSound :
    (db : AuthDb) (a : CaseAssignment) (k : Case)
    → Holds k db.cases
    → k.id ≡ a.case_id
    → contains allowed_roles a.role_in_case ≡ true
    → is_some (find (is_for a.case_id a.username) db.assignments) ≡ false
    → IsSound db
    → IsSound (record db { assignments = db.assignments ++ a ∷ [] })
unfolding is_for
add-IsSound db a k held own allowed absent h = record {
  usernames = h.usernames;
  numbers = h.numbers;
  ids = h.ids;
  pairs =
      Determines-snoc pair_of (λ b. b.id) a db.assignments
        (λ b old e. same_pair db a b absent old e) h.pairs;
  cases_exist = λ b m. elim (Holds-snoc b a db.assignments m) [
    | inl old ↦ h.cases_exist b old
    | inr new ↦ (k, held, own ∙ ap (λ d. d.case_id) (sym new))
  ];
  roles = λ b m. elim (Holds-snoc b a db.assignments m) [
    | inl old ↦ h.roles b old
    | inr new ↦ subst (λ d. contains allowed_roles d.role_in_case ≡ true) (sym new) allowed
  ];
}

pub create_assignment-IsSound :
    (c : Caller) (fresh : Fresh) (db : AuthDb) (case_id username role_in_case : String)
    → IsSound db
    → IsSound (create_assignment c fresh db case_id username role_in_case).0
unfolding create_assignment checked_assignment new_assignment
create_assignment-IsSound c fresh db case_id username role_in_case h =
    let P =
      λ (a : CaseAssignment). IsSound (record db { assignments = db.assignments ++ a ∷ [] }) in
    let a = new_assignment c fresh case_id username role_in_case in
    commit_with-keeps IsSound db (checked_assignment c fresh db case_id username role_in_case)
      (λ b. record db { assignments = db.assignments ++ b ∷ [] }) h
      (and_then-Gives P (require_admin c) _ (λ _ _. and_then-Gives P _ _ (λ u allowed.
        and_then-Gives P (open_case (find (λ k. k.id == case_id) db.cases)) _ (λ k located.
          and_then-Gives P _ _ (λ u' _.
            refuse-Gives P (is_some (find (is_for case_id username) db.assignments)) _ _ _
              (λ absent.
                let (held, own) = found_case db case_id k located in
                Gives-value P a
                  (add-IsSound db a k held own (ground (arith, allowed)) absent h)))))))

pub delete_assignment-IsSound :
    (c : Caller) (db : AuthDb) (case_id assignment_id : String)
    → IsSound db
    → IsSound (delete_assignment c db case_id assignment_id).0
unfolding delete_assignment
delete_assignment-IsSound c db case_id assignment_id h =
    let kept = λ (a : CaseAssignment). filter (λ b. not (b.id == a.id)) db.assignments in
    let P = λ (a : CaseAssignment). IsSound (record db { assignments = kept a }) in
    commit_with-keeps IsSound db _ (λ a. record db { assignments = kept a }) h
      (Gives-all P _ (λ a. record {
        usernames = h.usernames;
        numbers = h.numbers;
        ids = h.ids;
        pairs =
            Determines-filter pair_of (λ b. b.id) (λ b. not (b.id == a.id)) db.assignments h.pairs;
        cases_exist = λ b held.
            h.cases_exist b ((Holds-filter (λ d. not (d.id == a.id)) db.assignments b).0 held).0;
        roles = λ b held.
            h.roles b ((Holds-filter (λ d. not (d.id == a.id)) db.assignments b).0 held).0;
      }))
