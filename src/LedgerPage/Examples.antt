-- ===== src/LedgerPage/Examples.antt =====
-- Two cases with a ledger each.
use forensic_chain.Common.{
  String, true, false, none, some, List, [], ◌∷◌, ◌≡◌, refl, if◌then◌else◌, ◌==◌, is_truthy,
  ne_of_test, inl,
}
use forensic_chain.Api.{Case}
use forensic_chain.Api.Examples.{case_of, record_of, validation_of}
use forensic_chain.Http.{Reply, resolved, rejected, other}
use forensic_chain.LedgerPage.{
  State, init, LedgerData, select, cases_settled, ledger_settled, start_load,
}
use forensic_chain.LedgerPage.Races.{
  arrive, listed, arrived, here, next, OfOneCase, Reach-OfOneCase,
}
use forensic_chain.LedgerPage.Calm.{CalmReach, ShowsReply, calm_page-ShowsReply}
use forensic_chain.LedgerPage.Calm
use forensic_chain.LedgerPage.Stale.{Run, stale_reply}

abbrev ledger_of : String → LedgerData
ledger_of c = (record_of c c none ∷ record_of "next" c (some "h") ∷ [], validation_of c (c == "A"))

-- The server: it fails for the case "X".
abbrev fetch : String → Reply LedgerData
fetch c = if c == "X" then rejected other else resolved (ledger_of c)

abbrev reply_a : Reply (List Case)
reply_a = resolved (case_of "A" ∷ case_of "B" ∷ [])

abbrev loaded_a : State
loaded_a = arrive (fetch "A") [] (cases_settled reply_a init)

one_request : (cases_settled reply_a init).in_flight ≡ "A" ∷ []
unfolding cases_settled select start_load
one_request = refl

Reach-OfOneCase_example : OfOneCase fetch loaded_a
Reach-OfOneCase_example =
    Reach-OfOneCase fetch {s = loaded_a}
      (next (next here (listed reply_a refl)) (arrived "A" [] [] one_request))

settled_a : (loaded_a.in_flight ≡ []) × (is_truthy loaded_a.selected ≡ true)
unfolding arrive ledger_settled cases_settled select start_load
settled_a = (refl, refl)

calm_page-ShowsReply_example : ShowsReply fetch (fetch loaded_a.selected) loaded_a
calm_page-ShowsReply_example =
    calm_page-ShowsReply fetch {s = loaded_a}
      (Calm.next (Calm.next Calm.here (Calm.listed reply_a refl (refl, (refl, tt))))
        (Calm.arrived "A" [] [] one_request))
      settled_a.0 settled_a.1

stale_reply_example :
    (s : State) × Run fetch (case_of "A" ∷ case_of "B" ∷ []) init s
    × (s.cases ≡ case_of "A" ∷ case_of "B" ∷ [])
    × (s.selected ≡ "B")
    × (s.in_flight ≡ [])
    × (s.loading ≡ false)
    × (s.error ≡ none)
    × (s.records ≡ (ledger_of "A").0)
    × (s.validation ≡ some (ledger_of "A").1)
stale_reply_example =
    stale_reply fetch (case_of "A") (case_of "B") (case_of "B" ∷ []) (inl refl) refl refl
      (ne_of_test "A" "B" refl) refl refl
