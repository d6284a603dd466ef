-- ===== src/LoginPage/Examples.antt =====
-- A login that succeeds, and one that is refused.
use forensic_chain.Common.{false, none, some, ◌≡◌, ◌≢◌, ◌⊎◌, refl, inr, arith}
use forensic_chain.Auth.Examples.{decode_role, payload_of}
use forensic_chain.Http.{Browser, Failure, axios_error, status_of, resolved, rejected}
use forensic_chain.Routes.{shows, dashboard, app}
use forensic_chain.Routes.Examples.{match_literal, literal-IsRouter}
use forensic_chain.LoginPage.{init, submit_settled}
use forensic_chain.LoginPage.Outcomes.{login_opens_dashboard, after_load, credentials_error_lost}

abbrev signed_out : Browser
signed_out = record { token = none; location = none }

login_opens_dashboard_example :
    let after = submit_settled decode_role (resolved "admin") signed_out init in
    (after.browser.token ≡ some "admin")
    × (after.state.loading ≡ false)
    × (after.navigated ≡ some "/")
    × (app decode_role after.browser 0 match_literal "/" ≡ some (shows dashboard))
login_opens_dashboard_example =
    login_opens_dashboard decode_role match_literal 0 signed_out init "admin" (payload_of "admin")
      literal-IsRouter refl refl (omega arith) (inr (inr (inr refl)))

abbrev refused : Failure
refused = axios_error (some 401) "Unauthorized"

credentials_error_lost_example :
    ((status_of refused ≡ some 401)
      × ((submit_settled decode_role (rejected refused) signed_out init).state.error
          ≡ some "Invalid credentials. Please try again.")
      × ((after_load (submit_settled decode_role (rejected refused) signed_out init)).error ≡ none))
    ⊎ ((status_of refused ≢ some 401)
        × ((after_load (submit_settled decode_role (rejected refused) signed_out init)).error
            ≡ some "Unable to connect. Please try again."))
credentials_error_lost_example = credentials_error_lost decode_role refused signed_out init refl
