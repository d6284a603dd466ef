-- ===== src/LedgerPage/Stale.antt =====
-- What the page shows when a case is picked before the reply for the last one has come.
use forensic_chain.Common.{
  String, true, false, none, some, List, [], ◌∷◌, ◌++◌, ◌≡◌, refl, sym, ◌≢◌, inr, arith, is_truthy,
  eq_iff, subst, Holds,
}
use forensic_chain.Api.{Case, LedgerRecord, LedgerValidation}
use forensic_chain.Http.{Reply, resolved, rejected, Failure}
use forensic_chain.LedgerPage.{
  State, init, LedgerData, select, cases_settled, start_load, view, ledger_settled,
}
use forensic_chain.LedgerPage.Races.{arrive}

-- What happens on the open page: the list of cases arrives, once; the user picks an option of the
-- selector, which offers the listed cases; and a reply in flight arrives.
module _ (fetch : String → Reply LedgerData) (cases : List Case) where
  pub data Event (s : State) : State → Type 0 where
    listed : s.cases ≡ [] → Event s (cases_settled (resolved cases) s)
    picked : (k : Case) → Holds k s.cases → Event s (select k.case_number s)
    arrived :
        (c : String) (before after : List String)
        → s.in_flight ≡ before ++ c ∷ after
        → Event s (arrive (fetch c) (before ++ after) s)

  pub data Run (s : State) : State → Type 0 where
    here : Run s s
    next : {t u : State} → Run s t → Event t u → Run s u

-- The page on which the case `b` was picked while the request for `a` was in flight.
abbrev waiting : List Case → String → String → State
waiting cases a b = record init {
  cases = cases;
  selected = b;
  loading = true;
  in_flight = a ∷ b ∷ [];
}

module _ (fetch : String → Reply LedgerData) (k l : Case) (others : List Case)
    (offered : Holds l others) (named_k : is_truthy k.case_number ≡ true)
    (named_l : is_truthy l.case_number ≡ true) (different : k.case_number ≢ l.case_number) where
  abbrev a : String
  a = k.case_number

  abbrev b : String
  b = l.case_number

  abbrev Reached : State → Type 0
  Reached = Run fetch (k ∷ others) init

  picked_twice : select b (cases_settled (resolved (k ∷ others)) init) ≡ waiting (k ∷ others) a b
  unfolding select cases_settled start_load
  picked_twice = ground (arith, eq_iff "" a, eq_iff a "", eq_iff b "", eq_iff a b)

  listed_cases : (cases_settled (resolved (k ∷ others)) init).cases ≡ k ∷ others
  unfolding select cases_settled start_load
  listed_cases = ground (arith, eq_iff "" a)

  waiting-Reached : Reached (waiting (k ∷ others) a b)
  waiting-Reached = subst Reached picked_twice (
      next (next here (listed refl))
        (picked l (subst (λ cs. Holds l cs) (sym listed_cases) (inr offered))))

  -- The reply for the second case comes first.
  overtaken : State
  unfolding arrive
  overtaken = arrive (fetch a) [] (arrive (fetch b) (a ∷ []) (waiting (k ∷ others) a b))

  overtaken-Reached : Reached overtaken
  unfolding overtaken
  overtaken-Reached =
      next (next waiting-Reached (arrived b (a ∷ []) [] refl)) (arrived a [] [] refl)

  -- The replies come in the order of the requests.
  in_turn : State
  unfolding arrive
  in_turn = arrive (fetch b) [] (arrive (fetch a) (b ∷ []) (waiting (k ∷ others) a b))

  in_turn-Reached : Reached in_turn
  unfolding in_turn
  in_turn-Reached = next (next waiting-Reached (arrived a [] (b ∷ []) refl)) (arrived b [] [] refl)

  -- On a page whose list has a first case and another of another number, and whose server answers for
  -- both: picking the other from the selector before the reply for the first has come can end with
  -- that other case selected, nothing in flight, loading or wrong, and the records and the verdict of
  -- the first case shown.
  pub stale_reply :
      {records_a records_b : List LedgerRecord} {val_a val_b : LedgerValidation}
      → fetch a ≡ resolved (records_a, val_a)
      → fetch b ≡ resolved (records_b, val_b)
      → (s : State) × Reached s
        × (s.cases ≡ k ∷ others)
        × (s.selected ≡ b)
        × (s.in_flight ≡ [])
        × (s.loading ≡ false)
        × (s.error ≡ none)
        × (s.records ≡ records_a)
        × (s.validation ≡ some val_a)
  unfolding overtaken ledger_settled
  stale_reply ea eb = (
    overtaken,
    overtaken-Reached,
    rw (ea, eb),
    rw (ea, eb),
    refl,
    rw ea,
    rw (ea, eb),
    rw ea,
    rw ea,
  )

  -- When the request for the first case fails after the other was picked, and that one's then
  -- succeeds, the page can end with nothing in flight and the records and the verdict of the selected
  -- case there, under the error of the first case, so that no record is shown.
  pub stale_error :
      {err : Failure} {records_b : List LedgerRecord} {val_b : LedgerValidation}
      (locale_time : String → String)
      → fetch a ≡ rejected err
      → fetch b ≡ resolved (records_b, val_b)
      → (s : State) × Reached s
        × (s.selected ≡ b)
        × (s.in_flight ≡ [])
        × (s.records ≡ records_b)
        × ((view locale_time s).error ≡ some "Failed to load ledger data.")
        × ((view locale_time s).rows ≡ [])
  unfolding in_turn ledger_settled view
  stale_error locale_time ea eb =
      (in_turn, in_turn-Reached, rw (ea, eb), refl, rw (ea, eb), rw (ea, eb), rw (ea, eb))
