-- ===== src/Dashboard/Examples.antt =====
-- Dashboards of a member and of an admin.
use forensic_chain.Common.{false, some, [], ◌∷◌, ◌≡◌, refl, filter}
use forensic_chain.Api.Examples.{case_of}
use forensic_chain.Http.{rejected, other}
use forensic_chain.Search.Examples.{same_text, two_artifacts}
use forensic_chain.Dashboard.{
  State, init, load_settled, for_member, stats, artifacts_with, case_list, view,
}
use forensic_chain.Dashboard.Numbers.{left_out}

abbrev nine_cases : State
nine_cases = record {
  cases =
      case_of "C1"
      ∷ case_of "C2"
      ∷ case_of "C3"
      ∷ case_of "C4"
      ∷ case_of "C5"
      ∷ case_of "C6"
      ∷ case_of "C7"
      ∷ case_of "C8"
      ∷ case_of "C9"
      ∷ [];
  artifacts = two_artifacts;
  loading = false;
}

member_stats : (view same_text (some "investigator") nine_cases).stats ≡ for_member 9 2 2 0 0 false
unfolding view stats artifacts_with filter
member_stats = refl

one_left_out : left_out (view same_text (some "investigator") nine_cases).cases ≡ 1
unfolding view case_list
one_left_out = refl

-- When one of the two lists fails to load, neither is shown.
both_lost : load_settled (rejected other) init ≡ record init { loading = false }
unfolding load_settled
both_lost = refl
