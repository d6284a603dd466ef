-- ===== src/LedgerPage/Races.antt =====
-- The selector and the replies in any order. The server is a function of the case: it gives the
-- same reply as long as the page is open.
use forensic_chain.Common.{
  String, true, none, some, List, [], ◌∷◌, ◌++◌, ◌≡◌, refl, ◌⊎◌, inl, inr, is_truthy, ◌==◌,
  Bool-cases,
}
use forensic_chain.Api.{Case, LedgerValidation}
use forensic_chain.Http.{Reply, resolved, rejected}
use forensic_chain.LedgerPage.{State, init, LedgerData, select, cases_settled, ledger_settled}

-- The reply for `c` reaches the page, and is in flight no more.
unfoldable pub arrive : Reply LedgerData → List String → State → State
arrive r rest s = record (ledger_settled r s) { in_flight = rest }

module _ (fetch : String → Reply LedgerData) where
  -- What can happen to the open page: the list of cases settles while nothing is selected, the user
  -- picks a case number, and any reply in flight arrives.
  pub data Step (s : State) : State → Type 0 where
    listed : (r : Reply (List Case)) → s.selected ≡ "" → Step s (cases_settled r s)
    picked : (c : String) → is_truthy c ≡ true → Step s (select c s)
    arrived :
        (c : String) (before after : List String)
        → s.in_flight ≡ before ++ c ∷ after
        → Step s (arrive (fetch c) (before ++ after) s)

  pub data Reach (s : State) : State → Type 0 where
    here : Reach s s
    next : {t u : State} → Reach s t → Step t u → Reach s u

  -- The records and the banner are of one reply, or there are neither.
  abbrev pub OfOneCase : State → Type 0
  OfOneCase s =
      ((s.records ≡ []) × (s.validation ≡ none))
      ⊎ ((c : String) × (val : LedgerValidation) × (fetch c ≡ resolved (s.records, val))
          × (s.validation ≡ some val))

  select-OfOneCase : (c : String) (s : State) → OfOneCase s → OfOneCase (select c s)
  unfolding select
  select-OfOneCase c s h = elim (Bool-cases (s.selected == c)) [
    | inl same ↦ rw same h
    | inr other ↦ elim (Bool-cases (c == "")) [
      | inl blank ↦ rw (other, blank) h
      | inr named ↦ rw (other, named) (inl (refl, refl))
    ]
  ]

  cases_settled-OfOneCase :
      (r : Reply (List Case)) (s : State) → OfOneCase s → OfOneCase (cases_settled r s)
  unfolding cases_settled
  cases_settled-OfOneCase (resolved []) s h = h
  cases_settled-OfOneCase (resolved (c ∷ cs)) s h =
      select-OfOneCase c.case_number (record s { cases = c ∷ cs }) h
  cases_settled-OfOneCase (rejected err) s h = h

  arrive-OfOneCase :
      (c : String) (r : Reply LedgerData) (rest : List String) (s : State)
      → fetch c ≡ r
      → OfOneCase s
      → OfOneCase (arrive r rest s)
  unfolding arrive ledger_settled
  arrive-OfOneCase c (resolved (recs, val)) rest s e h = inr (c, val, e, refl)
  arrive-OfOneCase c (rejected err) rest s e h = h

  Step-OfOneCase : {s t : State} → Step s t → OfOneCase s → OfOneCase t
  Step-OfOneCase {s} (listed r blank) h = cases_settled-OfOneCase r s h
  Step-OfOneCase {s} (picked c named) h = select-OfOneCase c s h
  Step-OfOneCase {s} (arrived c before after e) h =
      arrive-OfOneCase c (fetch c) (before ++ after) s refl h

  -- However selections and replies interleave, the page never shows the records of one reply under
  -- the verdict of another: both are absent, or both are of the same reply for one case.
  pub Reach-OfOneCase : {s : State} → Reach init s → OfOneCase s
  Reach-OfOneCase here = inl (refl, refl)
  Reach-OfOneCase (next r st) = Step-OfOneCase st (Reach-OfOneCase r)
