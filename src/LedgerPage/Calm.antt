-- ===== src/LedgerPage/Calm.antt =====
-- The page of a user who waits for each reply before picking another case.
use forensic_chain.Common.{
  String, true, false, none, some, List, [], ◌∷◌, ◌++◌, ◌≡◌, refl, sym, inl, inr, is_truthy, ◌==◌,
  Bool-cases, All, ◌∙◌, subst,
}
use forensic_chain.Api.{Case}
use forensic_chain.Http.{Reply, resolved, rejected}
use forensic_chain.LedgerPage.{State, init, LedgerData, select, cases_settled, ledger_settled}
use forensic_chain.LedgerPage.Races.{arrive}

module _ (fetch : String → Reply LedgerData) where
  -- What the page shows is the reply for the selected case.
  abbrev pub ShowsReply : Reply LedgerData → State → Type 0
  ShowsReply (resolved (recs, val)) s =
      (s.records ≡ recs) × (s.validation ≡ some val) × (s.error ≡ none) × (s.loading ≡ false)
  ShowsReply (rejected err) s =
      (s.records ≡ [])
      × (s.validation ≡ none)
      × (s.error ≡ some "Failed to load ledger data.")
      × (s.loading ≡ false)

  -- Every case that the server lists has a number.
  abbrev pub AllNamed : Reply (List Case) → Type 0
  AllNamed (resolved cases) = All (λ c. is_truthy c.case_number ≡ true) cases
  AllNamed (rejected err) = Unit

  -- Steps of a user who waits for a reply before picking another case.
  pub data CalmStep (s : State) : State → Type 0 where
    listed : (r : Reply (List Case)) → s.selected ≡ "" → AllNamed r → CalmStep s (cases_settled r s)
    picked : (c : String) → is_truthy c ≡ true → s.in_flight ≡ [] → CalmStep s (select c s)
    arrived :
        (c : String) (before after : List String)
        → s.in_flight ≡ before ++ c ∷ after
        → CalmStep s (arrive (fetch c) (before ++ after) s)

  pub data CalmReach (s : State) : State → Type 0 where
    here : CalmReach s s
    next : {t u : State} → CalmReach s t → CalmStep t u → CalmReach s u

  -- Nothing is selected; or one request is in flight and the page is blank and busy; or the page
  -- shows the reply for the selected case.
  pub data IsCalm (s : State) : Type 0 where
    idle : s.selected ≡ "" → s.in_flight ≡ [] → s.records ≡ [] → s.validation ≡ none → IsCalm s
    busy :
        is_truthy s.selected ≡ true
        → s.in_flight ≡ s.selected ∷ []
        → s.records ≡ []
        → s.validation ≡ none
        → s.error ≡ none
        → s.loading ≡ true
        → IsCalm s
    done :
        is_truthy s.selected ≡ true → s.in_flight ≡ [] → ShowsReply (fetch s.selected) s → IsCalm s

  IsCalm-select :
      (c : String) (s : State)
      → is_truthy c ≡ true
      → s.in_flight ≡ []
      → IsCalm s
      → IsCalm (select c s)
  unfolding select
  IsCalm-select c s named free h = elim (Bool-cases (s.selected == c)) [
    | inl same ↦ rw same h
    | inr other ↦ elim (Bool-cases (c == "")) [
      | inl blank ↦ absurd (cc (rw blank at named))
      | inr text ↦ rw (other, text) (busy (rw text) (rw free) refl refl refl refl)
    ]
  ]

  no_parts : (before after : List String) (c : String) → [] ≡ before ++ c ∷ after → ⊥
  no_parts [] after c e = cc
  no_parts (x ∷ before) after c e = cc

  single_part :
      (before after : List String) (a c : String)
      → a ∷ [] ≡ before ++ c ∷ after
      → (before ++ after ≡ []) × (a ≡ c)
  single_part [] after a c e = (cc, cc)
  single_part (x ∷ []) after a c e = absurd (cc)
  single_part (x ∷ y ∷ before) after a c e = absurd (cc)

  arrive_fields :
      (r : Reply LedgerData) (rest : List String) (s : State)
      → ((arrive r rest s).selected ≡ s.selected) × ((arrive r rest s).in_flight ≡ rest)
  unfolding arrive ledger_settled
  arrive_fields (resolved (recs, val)) rest s = (refl, refl)
  arrive_fields (rejected err) rest s = (refl, refl)

  arrive-ShowsReply :
      (r : Reply LedgerData) (rest : List String) (s : State)
      → s.records ≡ []
      → s.validation ≡ none
      → s.error ≡ none
      → ShowsReply r (arrive r rest s)
  unfolding arrive ledger_settled
  arrive-ShowsReply (resolved (recs, val)) rest s a b c = (refl, refl, c, refl)
  arrive-ShowsReply (rejected err) rest s a b c = (a, b, refl, refl)

  IsCalm-arrive :
      (c : String) (before after : List String) (s : State)
      → s.in_flight ≡ before ++ c ∷ after
      → IsCalm s
      → IsCalm (arrive (fetch c) (before ++ after) s)
  IsCalm-arrive c before after s e (idle a b x y) = absurd (no_parts before after c (sym b ∙ e))
  IsCalm-arrive c before after s e (done a b x) = absurd (no_parts before after c (sym b ∙ e))
  IsCalm-arrive c before after s e (busy named one recs val err load) =
      let (rest, same) = single_part before after s.selected c (sym one ∙ e) in
      let (kept, flight) = arrive_fields (fetch c) (before ++ after) s in
      done (rw kept named) (flight ∙ rest) (
        subst (λ k. ShowsReply (fetch k) (arrive (fetch c) (before ++ after) s))
          (sym same ∙ sym kept) (arrive-ShowsReply (fetch c) (before ++ after) s recs val err))

  IsCalm-listed :
      (r : Reply (List Case)) (s : State)
      → s.selected ≡ ""
      → AllNamed r
      → IsCalm s
      → IsCalm (cases_settled r s)
  unfolding cases_settled
  IsCalm-listed r s blank named (busy a b x y z w) = absurd (cc (rw blank at a))
  IsCalm-listed r s blank named (done a b x) = absurd (cc (rw blank at a))
  IsCalm-listed (resolved []) s blank named (idle a b x y) = idle a b x y
  IsCalm-listed (resolved (c ∷ cs)) s blank named (idle a b x y) =
      IsCalm-select c.case_number (record s { cases = c ∷ cs }) named.0 b (idle a b x y)
  IsCalm-listed (rejected err) s blank named (idle a b x y) = idle a b x y

  CalmStep-IsCalm : {s t : State} → CalmStep s t → IsCalm s → IsCalm t
  CalmStep-IsCalm {s} (listed r blank named) h = IsCalm-listed r s blank named h
  CalmStep-IsCalm {s} (picked c named free) h = IsCalm-select c s named free h
  CalmStep-IsCalm {s} (arrived c before after e) h = IsCalm-arrive c before after s e h

  CalmReach-IsCalm : {s : State} → CalmReach init s → IsCalm s
  CalmReach-IsCalm here = idle refl refl refl refl
  CalmReach-IsCalm (next r st) = CalmStep-IsCalm st (CalmReach-IsCalm r)

  -- If the user picks another case only when no request is in flight, then, whenever none is, the
  -- page shows exactly the reply for the selected case: its records and its verdict with no error, or
  -- the error with neither, and it is not loading.
  pub calm_page-ShowsReply :
      {s : State}
      → CalmReach init s
      → s.in_flight ≡ []
      → is_truthy s.selected ≡ true
      → ShowsReply (fetch s.selected) s
  calm_page-ShowsReply {s} r free named = elim (CalmReach-IsCalm r) [
    | idle a b x y ↦ absurd (cc (rw a at named))
    | busy a b x y z w ↦ absurd (cc b)
    | done a b x ↦ x
  ]
