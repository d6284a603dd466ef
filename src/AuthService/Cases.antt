-- ===== src/AuthService/Cases.antt =====
-- The handlers of the cases keep the tables sound.
use forensic_chain.Common.{
  ℕ, String, Bool, true, false, Option, none, some, [], ◌∷◌, ◌++◌, map, ◌≡◌, refl, sym, ◌∙◌, ap,
  subst, inl, inr, arith, eq_iff, Bool-cases, ne_of_test, ◌==◌, not, is_some, is_text, Holds, find,
  find-eq-some, if◌then◌else◌,
}
use forensic_chain.Python.{answered, Gives-value, and_then-Gives}
use forensic_chain.AuthService.Store.{Case, AuthDb}
use forensic_chain.AuthService.Tables.{
  Holds-snoc_old, find-none, Holds-map_to, Determines-snoc, Determines-map,
}
use forensic_chain.AuthService.Admin.{
  Caller, Fresh, new_case, checked_case, create_case, with_status, update_case_status,
  require_admin, matches, number_pattern,
}
use forensic_chain.AuthService.Sound.{IsSound, commit_with-keeps, Gives-when, refuse-Gives}

pub create_case-IsSound :
    (is_decimal : ℕ → Bool) (c : Caller) (fresh : Fresh) (db : AuthDb) (case_number title : String)
    (description : Option String)
    → is_some (find (λ k. k.id == fresh.id) db.cases) ≡ false
    → IsSound db
    → IsSound (create_case is_decimal c fresh db case_number title description).0
unfolding create_case checked_case new_case
create_case-IsSound is_decimal c fresh db case_number title description unused h =
    let P = λ (k : Case). IsSound (record db { cases = db.cases ++ k ∷ [] }) in
    let k = new_case c fresh case_number title description in
    commit_with-keeps IsSound db (checked_case is_decimal c fresh db case_number title description)
      (λ l. record db { cases = db.cases ++ l ∷ [] }) h
      (and_then-Gives P (require_admin c) _ (λ _ _.
        refuse-Gives P (not (matches is_decimal number_pattern case_number)) _ _ _ (λ fits.
          refuse-Gives P (is_some (find (λ l. l.case_number == case_number) db.cases)) _ _ _
            (λ absent. Gives-value P k (record {
              usernames = h.usernames;
              numbers =
                  Determines-snoc (λ l. l.case_number) (λ l. l.id) k db.cases
                    (λ l held.
                      ne_of_test l.case_number case_number
                        (find-none (λ m. m.case_number == case_number) db.cases l absent held))
                    h.numbers;
              ids =
                  Determines-snoc (λ l. l.id) (λ l. l.case_number) k db.cases
                    (λ l held.
                      ne_of_test l.id fresh.id
                        (find-none (λ m. m.id == fresh.id) db.cases l unused held))
                    h.ids;
              pairs = h.pairs;
              cases_exist = λ a held.
                  let (l, old, own) = h.cases_exist a held in
                  (l, Holds-snoc_old l k db.cases old, own);
              roles = h.roles;
            })))))

pub with_status-kept :
    (status : Option String) (o : Option Case) (k : Case)
    → with_status status o ≡ answered k
    → (old : Case) × (o ≡ some old)
      × (k.id ≡ old.id)
      × (k.case_number ≡ old.case_number)
      × (is_text status k.status ≡ true)
unfolding with_status
with_status-kept status none k e = cc
with_status-kept none (some l) k e = absurd (ground (arith, e))
with_status-kept (some t) (some l) k e =
    let kept : (record l { status = t }) ≡ k = ground (arith, e) in
    (
      l,
      refl,
      ap (λ d. d.id) (sym kept),
      ap (λ d. d.case_number) (sym kept),
      subst (λ d. t == d.status ≡ true) kept ((eq_iff t t).1 refl),
    )

-- A changed case in the place of the one of its id keeps the tables sound.
replace-IsSound :
    (db : AuthDb) (k old : Case)
    → Holds old db.cases
    → k.id ≡ old.id
    → k.case_number ≡ old.case_number
    → IsSound db
    → IsSound (record db { cases = map (λ l. if l.id == k.id then k else l) db.cases })
replace-IsSound db k old held same_id same_number h =
    let f = λ (l : Case). if l.id == k.id then k else l in
    let id_kept : (l : Case) → (f l).id ≡ l.id = λ l. ground (arith, eq_iff l.id k.id) in
    let number_kept : (l : Case) → Holds l db.cases → (f l).case_number ≡ l.case_number = λ l m.
      elim (Bool-cases (l.id == k.id)) [
        | inl t ↦
            rw t (same_number ∙ h.ids old l held m (sym same_id ∙ sym ((eq_iff l.id k.id).0 t)))
        | inr off ↦ rw off refl
      ] in
    record {
      usernames = h.usernames;
      numbers =
          Determines-map (λ l. l.case_number) (λ l. l.id) f db.cases number_kept (λ l _. id_kept l)
            h.numbers;
      ids =
          Determines-map (λ l. l.id) (λ l. l.case_number) f db.cases (λ l _. id_kept l) number_kept
            h.ids;
      pairs = h.pairs;
      cases_exist = λ a m.
          let (l, m', own) = h.cases_exist a m in
          (f l, Holds-map_to f db.cases l m', id_kept l ∙ own);
      roles = h.roles;
    }

pub update_case_status-IsSound :
    (c : Caller) (db : AuthDb) (case_id : String) (status : Option String)
    → IsSound db
    → IsSound (update_case_status c db case_id status).0
unfolding update_case_status
update_case_status-IsSound c db case_id status h =
    let P = λ (k : Case).
      IsSound (record db { cases = map (λ l. if l.id == k.id then k else l) db.cases }) in
    commit_with-keeps IsSound db _
      (λ k. record db { cases = map (λ l. if l.id == k.id then k else l) db.cases }) h
      (and_then-Gives P (require_admin c) _ (λ _ _.
        Gives-when P (with_status status (find (λ k. k.id == case_id) db.cases)) (λ k e.
          let (old, located, same_id, same_number, _) = with_status-kept status _ k e in
          let (held, _) = find-eq-some (λ l. l.id == case_id) db.cases old located in
          replace-IsSound db k old held same_id same_number h)))
