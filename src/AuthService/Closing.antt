-- ===== src/AuthService/Closing.antt =====
-- A closed case takes no more evidence.
use forensic_chain.Common.{
  String, true, false, some, List, [], ◌∷◌, map, ◌≡◌, refl, sym, ◌∙◌, ap, subst, inl, inr, arith,
  eq_iff, Bool-cases, ne_of_test, ◌==◌, Holds, Holds-filter, find-eq-some, contains, contains_iff,
  if◌then◌else◌,
}
use forensic_chain.Python.{
  returned, Answer, answered, http_error, and_then-answered, AssignmentsFetch, assigned_of,
}
use forensic_chain.AuthService.Store.{Case, AuthDb, is_open_for, get_user_assignments}
use forensic_chain.AuthService.Tables.{Holds-map_from}
use forensic_chain.AuthService.Admin.{Caller, commit_with, update_case_status}
use forensic_chain.AuthService.Sound.{IsSound}
use forensic_chain.AuthService.Cases.{with_status-kept}
use forensic_chain.EvidenceCollector.Records as Evidence
use forensic_chain.EvidenceCollector.Upload as Upload

-- What the auth service answers to `GET /internal/assignments/by-user/{username}`.
unfoldable pub assignments_of : AuthDb → String → AssignmentsFetch
assignments_of db username = returned (200, returned (get_user_assignments db username))

Holds-numbers :
    (n : String) (ks : List Case)
    → Holds n (map (λ k. k.case_number) ks)
    → (k : Case) × Holds k ks × (k.case_number ≡ n)
Holds-numbers n [] m = absurd m
Holds-numbers n (k ∷ ks) (inl e) = (k, inl refl, sym e)
Holds-numbers n (k ∷ ks) (inr m) = let (l, held, e) = Holds-numbers n ks m in (l, inr held, e)

-- A case number among a user's assignments is that of an open case.
open_of_assigned :
    (db : AuthDb) (username n : String)
    → contains (get_user_assignments db username) n ≡ true
    → (k : Case) × Holds k db.cases × (k.case_number ≡ n) × (k.status ≡ "OPEN")
unfolding get_user_assignments is_open_for
open_of_assigned db username n e =
    let (k, held, number) = Holds-numbers n _ ((contains_iff _ n).0 e) in
    let (old, on) = (Holds-filter (is_open_for db username) db.cases k).0 held in
    (k, old, number, (eq_iff k.status "OPEN").0 (ground (arith, on)))

commit_with-answered :
    {A : Type 0} (db : AuthDb) (m : Answer A) (f : A → AuthDb) (a : A)
    → (commit_with db m f).1 ≡ answered a
    → (m ≡ answered a) × ((commit_with db m f).0 ≡ f a)
unfolding commit_with
commit_with-answered db (answered b) f a e = (e, ap f (ground (arith, e)))
commit_with-answered db (http_error status detail) f a e = cc

-- Once a case is in the table as closed, under the only row of its number, no user has it among his
-- open ones.
closed_of_replaced :
    (db : AuthDb) (k old : Case) (username : String)
    → IsSound db
    → Holds old db.cases
    → k.id ≡ old.id
    → k.case_number ≡ old.case_number
    → k.status ≡ "CLOSED"
    → contains
        (get_user_assignments
          (record db { cases = map (λ l. if l.id == k.id then k else l) db.cases })
          username)
        k.case_number
      ≡ false
closed_of_replaced db k old username h held same_id same_number closed =
    let f = λ (l : Case). if l.id == k.id then k else l in
    let next : AuthDb = record db { cases = map f db.cases } in
    elim (Bool-cases (contains (get_user_assignments next username) k.case_number)) [
      | inr off ↦ off
      | inl on ↦
          let (l, m, number, is_open) = open_of_assigned next username k.case_number on in
          let (origin, m', e) = Holds-map_from f db.cases l m in
          absurd (elim (Bool-cases (origin.id == k.id)) [
            | inl t ↦
                let now_k : l ≡ k = e ∙ (rw t refl) in
                ne_of_test "OPEN" "CLOSED" refl (sym is_open ∙ ap (λ d. d.status) now_k ∙ closed)
            | inr off ↦
                let same : l ≡ origin = e ∙ (rw off refl) in
                let one_id =
                  h.numbers origin old m' held
                    (sym (ap (λ d. d.case_number) same) ∙ number ∙ same_number) in
                ne_of_test origin.id k.id off (one_id ∙ sym same_id)
          ])
    ]

-- When an admin closes a case, no user has it among his assignments any longer.
close-removes :
    (c : Caller) (db : AuthDb) (case_id username : String) (k : Case)
    → IsSound db
    → (update_case_status c db case_id (some "CLOSED")).1 ≡ answered k
    → contains
        (get_user_assignments (update_case_status c db case_id (some "CLOSED")).0 username)
        k.case_number
      ≡ false
unfolding update_case_status
close-removes c db case_id username k h e =
    let (made, next) = commit_with-answered db _ _ k e in
    let (u, admin, changed) = and_then-answered _ _ k made in
    let (old, located, same_id, same_number, told) = with_status-kept (some "CLOSED") _ k changed in
    let (held, _) = find-eq-some (λ l. l.id == case_id) db.cases old located in
    subst (λ d. contains (get_user_assignments d username) k.case_number ≡ false) (sym next)
      (closed_of_replaced db k old username h held same_id same_number
        (sym ((eq_iff "CLOSED" k.status).0 told)))

-- When the tables are sound: after an admin has closed a case, every upload to it is refused and
-- leaves the store as it was.
pub close-refuses_upload :
    (c : Caller) (db : AuthDb) (case_id : String) (k : Case) (uploader : Evidence.Caller)
    (form : Upload.UploadForm) (s : Upload.Surroundings) (store : Upload.Store)
    → IsSound db
    → (update_case_status c db case_id (some "CLOSED")).1 ≡ answered k
    → form.case_id ≡ k.case_number
    → Upload.upload_evidence
        (assignments_of (update_case_status c db case_id (some "CLOSED")).0)
        uploader
        form
        s
        store
      ≡ (store, http_error 403 "Not assigned to this case or case is not open")
unfolding Upload.upload_evidence assignments_of assigned_of
close-refuses_upload c db case_id k uploader form s store h e same =
    let off =
      subst
        (λ n.
          contains
            (get_user_assignments (update_case_status c db case_id (some "CLOSED")).0
              uploader.user_id)
            n
          ≡ false)
        (sym same) (close-removes c db case_id uploader.user_id k h e) in
    rw off refl
