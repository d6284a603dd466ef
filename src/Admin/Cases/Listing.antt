-- ===== src/Admin/Cases/Listing.antt =====
-- What the actions of the tab do to the list of cases and to its menu.
use forensic_chain.Common.{
  String, Option, none, some, List, [], ◌∷◌, ◌≡◌, refl, sym, ap, ◌∙◌, inl, inr, arith, ◌==◌, eq_iff,
  Bool-cases, find, if◌then◌else◌,
}
use forensic_chain.Api.{Case}
use forensic_chain.Http.{Browser, resolved, rejected, Failure}
use forensic_chain.Admin.Cases.{State, toggle_started, put_case, toggle_settled}

abbrev pub ids : List Case → List String
ids [] = []
ids (c ∷ cs) = c.id ∷ ids cs

put_case-ids :
    (id : String) (updated : Case) (cs : List Case)
    → updated.id ≡ id
    → ids (put_case id updated cs) ≡ ids cs
unfolding put_case
put_case-ids id updated [] same = refl
put_case-ids id updated (x ∷ cs) same = elim (Bool-cases (x.id == id)) [
  | inl hit ↦ rw hit (
      rw (put_case-ids id updated cs same)
        (ap (λ i. i ∷ ids cs) (same ∙ sym ((eq_iff x.id id).0 hit))))
  | inr miss ↦ rw miss (ap (λ l. x.id ∷ l) (put_case-ids id updated cs same))
]

-- What `put_case` makes of the case with an id.
abbrev pub found_after : String → Case → Option Case → Option Case
found_after id updated none = none
found_after id updated (some c) = some (if c.id == id then updated else c)

find-put_case :
    (id key : String) (updated : Case) (cs : List Case)
    → updated.id ≡ id
    → find (λ x. x.id == key) (put_case id updated cs)
      ≡ found_after id updated (find (λ x. x.id == key) cs)
unfolding find put_case
find-put_case id key updated [] same = refl
find-put_case id key updated (x ∷ cs) same = ground (
  arith,
  eq_iff x.id id,
  eq_iff x.id key,
  eq_iff updated.id key,
  eq_iff updated.id id,
  find-put_case id key updated cs same,
)

-- Changing the status of a case closes its menu and, when the server's reply is about the same case,
-- leaves all rows in their places: the reply takes the place of that case, and every other case is
-- found as it was. When the request fails, the list is as before.
pub toggle_replaces :
    (b : Browser) (s : State) (c updated : Case)
    → updated.id ≡ c.id
    → let t = toggle_settled c (resolved updated) (toggle_started b c s).0 in
      (t.open_menu ≡ none)
      × (ids t.cases ≡ ids s.cases)
      × ((key : String)
          → find (λ x. x.id == key) t.cases
            ≡ found_after c.id updated (find (λ x. x.id == key) s.cases))
      × ((err : Failure)
          → (toggle_settled c (rejected err) (toggle_started b c s).0).cases ≡ s.cases)
unfolding toggle_settled toggle_started
toggle_replaces b s c updated same = (
  refl,
  put_case-ids c.id updated s.cases same,
  (λ key. find-put_case c.id key updated s.cases same),
  λ err. refl,
)
