-- ===== src/LoginPage/Outcomes.antt =====
-- How a login ends.
use forensic_chain.Common.{
  ℕ, ◌*◌, ◌<◌, String, true, false, Option, none, some, List, ◌≡◌, refl, ◌≢◌, is_truthy, inl, inr,
  find, ◌⊎◌, eqb_iff, Bool-cases, ap,
}
use forensic_chain.Http.{Browser, resolved, rejected, Failure, status_of, is_status, on_reply}
use forensic_chain.Auth.{JwtPayload, login_reply, decode_token, set_token}
use forensic_chain.Auth.Roles.{IsLive-is_authenticated}
use forensic_chain.Routes.{Route, shows, dashboard, app}
use forensic_chain.Routes.Access.{IsRouter, is_static, MayView}
use forensic_chain.Routes.Redirects.{open_page}
use forensic_chain.LoginPage.{State, init, Settled, submit_settled}

-- A login with a token that decodes, has not expired and names one of the four roles stores the
-- token, stops loading, and navigates to a location that shows the dashboard.
pub login_opens_dashboard :
    (jwt_decode : String → Option JwtPayload) (match_route : List Route → String → Option Route)
    (now : ℕ) (b : Browser) (s : State) (token : String) (payload : JwtPayload)
    → IsRouter match_route
    → is_truthy token ≡ true
    → jwt_decode token ≡ some payload
    → now < payload.exp * 1000
    → MayView dashboard payload.role
    → let after = submit_settled jwt_decode (resolved token) b s in
      (after.browser.token ≡ some token)
      × (after.state.loading ≡ false)
      × (after.navigated ≡ some "/")
      × (app jwt_decode after.browser now match_route "/" ≡ some (shows dashboard))
unfolding submit_settled login_reply decode_token find is_static
login_opens_dashboard jwt_decode match_route now b s token payload router named decodes live role =
    let decoded : decode_token jwt_decode (set_token token b) ≡ some payload = rw named decodes in
    let signed_in =
      IsLive-is_authenticated jwt_decode (set_token token b) now
        (record { payload = payload; decoded = decoded; unexpired = live }) in
    (
      refl,
      refl,
      refl,
      open_page jwt_decode (set_token token b) now match_route router "/" _ refl refl dashboard
          (refl, (payload, decoded, signed_in, role)),
    )

-- The form that the user sees once the browser has done the page load asked for, if any: a load
-- starts the page anew.
pub after_load : Settled → State
after_load after = elim after.browser.location [ none ↦ after.state | some url ↦ init ]

status_401 : (st : Option ℕ) → is_status st 401 ≡ true → st ≡ some 401
status_401 none e = cc
status_401 (some n) e = ap some ((eqb_iff n 401).0 e)

-- In a document that no load is asked for, a failed login leaves a message on the screen exactly when
-- its status is not 401, and it is the one on the connection: the message on invalid credentials is
-- set, but the response interceptor has asked for a load of the login page, which replaces it.
pub credentials_error_lost :
    (jwt_decode : String → Option JwtPayload) (err : Failure) (b : Browser) (s : State)
    → b.location ≡ none
    → ((status_of err ≡ some 401)
        × ((submit_settled jwt_decode (rejected err) b s).state.error
            ≡ some "Invalid credentials. Please try again.")
        × ((after_load (submit_settled jwt_decode (rejected err) b s)).error ≡ none))
      ⊎ ((status_of err ≢ some 401)
          × ((after_load (submit_settled jwt_decode (rejected err) b s)).error
              ≡ some "Unable to connect. Please try again."))
unfolding submit_settled login_reply on_reply after_load
credentials_error_lost jwt_decode err b s stays =
    elim (Bool-cases (is_status (status_of err) 401)) [
      | inl refused ↦ inl (status_401 (status_of err) refused, rw refused, rw refused)
      | inr otherwise ↦
          inr ((λ e. cc (otherwise, ap (λ st. is_status st 401) e)), rw otherwise (rw stays))
    ]
