-- ===== src/LoginPage.antt =====
-- The form of forensic-ui/src/pages/LoginPage.tsx: its state and its submit handler, split where it
-- waits for the login call. The backdrop of the page is decoration and left out.
pub mod Outcomes
pub mod Examples
use forensic_chain.Common.{
  ℕ, String, Bool, true, false, Option, none, some, List, [], ◌∷◌, if◌then◌else◌, is_present,
}
use forensic_chain.Api.Endpoints
use forensic_chain.Http.{
  Browser, HttpRequest, Reply, resolved, rejected, Failure, status_of, is_status, on_request,
}
use forensic_chain.Auth.{JwtPayload, login_reply, get_role}
use forensic_chain.Routes.{redirect_for_role}

pub record State : Type 0 where
  pub username : String
  pub password : String
  pub remember : Bool
  pub error : Option String
  pub loading : Bool

abbrev pub init : State
init = record { username = ""; password = ""; remember = false; error = none; loading = false }

-- `handleSubmit` up to its `await`, with the request as it is sent.
unfoldable pub submit_started : Browser → State → State × HttpRequest
submit_started b s = (
  record s { error = none; loading = true },
  on_request b (Endpoints.login s.username s.password),
)

-- The page, the browser and the router's `navigate` call, if any, after an event.
pub record Settled : Type 0 where
  pub state : State
  pub browser : Browser
  pub navigated : Option String

-- The text of the `catch` clause.
unfoldable pub login_error : Failure → String
login_error err =
    if is_status (status_of err) 401
    then "Invalid credentials. Please try again."
    else "Unable to connect. Please try again."

-- `handleSubmit` from its `await` on.
unfoldable pub submit_settled :
    (String → Option JwtPayload) → Reply String → Browser → State → Settled
unfolding login_error
submit_settled jwt_decode (resolved token) b s =
    let after = login_reply b (resolved token) in
    record {
      state = record s { loading = false };
      browser = after;
      navigated = some (redirect_for_role (get_role jwt_decode after));
    }
submit_settled jwt_decode (rejected err) b s = record {
  state = record s { error = some (login_error err); loading = false };
  browser = login_reply b (rejected err);
  navigated = none;
}

unfoldable pub type_username : String → State → State
type_username text s = record s { username = text }

unfoldable pub type_password : String → State → State
type_password text s = record s { password = text }

unfoldable pub tick_remember : Bool → State → State
tick_remember ticked s = record s { remember = ticked }

-- What the form shows: its inputs, whether they and the button are disabled, and the message.
pub record View : Type 0 where
  pub username : String
  pub password : String
  pub remember : Bool
  pub disabled : Bool
  pub message : Option String
  pub button : String

unfoldable pub view : State → View
view s = record {
  username = s.username;
  password = s.password;
  remember = s.remember;
  disabled = s.loading;
  message = if is_present s.error then s.error else none;
  button = if s.loading then "Authenticating…" else "Secure Sign In";
}
