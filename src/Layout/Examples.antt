-- ===== src/Layout/Examples.antt =====
-- The navigation of an analyst.
use forensic_chain.Common.{true, some, [], ◌∷◌, ◌≡◌, refl, contains, inl, inr, filter}
use forensic_chain.Auth.{AuthView}
use forensic_chain.Routes.{Route, page, ledger, legal_reviewer}
use forensic_chain.Routes.Access.{is_static}
use forensic_chain.Search.Examples.{same_text}
use forensic_chain.Layout.{view, visible_nav, is_visible}
use forensic_chain.Layout.Links.{targets, labels, nav-eq-contains}

abbrev analyst : AuthView
analyst = record {
  token = some "t";
  username = some "ada";
  role = some "forensic_analyst";
  authenticated = true;
}

analyst_links :
    labels (view same_text analyst "/").nav ≡ "Dashboard" ∷ "Upload Evidence" ∷ "Evidence List" ∷ []
unfolding view visible_nav is_visible filter contains
analyst_links = refl

abbrev ledger_route : Route
ledger_route = record {
  path = "/ledger";
  allowed = some (legal_reviewer ∷ []);
  element = page ledger;
}

static_ledger : is_static "/ledger" ≡ true
unfolding is_static
static_ledger = refl

nav-eq-contains_example :
    contains (targets (view same_text analyst "/").nav) "/ledger"
    ≡ contains (legal_reviewer ∷ []) "forensic_analyst"
nav-eq-contains_example =
    nav-eq-contains same_text analyst "/" "forensic_analyst" ledger_route (legal_reviewer ∷ []) refl
      (inr (inr (inr (inr (inr (inr (inr (inl refl)))))))) static_ledger refl
