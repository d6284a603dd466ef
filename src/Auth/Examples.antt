-- ===== src/Auth/Examples.antt =====
-- Tokens and sessions to try the theorems on.
use forensic_chain.Common.{
  String, Option, none, some, [], ◌∷◌, ◌≡◌, refl, if◌then◌else◌, ◌==◌, true, false,
}
use forensic_chain.Http.{
  Browser, HttpRequest, axios_error, rejected, resolved, on_request, client, get, empty,
}
use forensic_chain.Auth.{JwtPayload, is_authenticated, get_username}
use forensic_chain.Auth.Session.{settled, login_settled, run, no_credential_after_401}

abbrev pub payload_of : String → JwtPayload
payload_of role = record { sub = "u1"; username = none; role = role; exp = 100 }

-- A stand-in for `jwtDecode`: the token is the role, and the token "bad" throws.
abbrev pub decode_role : String → Option JwtPayload
decode_role token = if token == "bad" then none else some (payload_of token)

abbrev pub signed_in : String → Browser
signed_in role = record { token = some role; location = none }

live_until_expiry :
    (is_authenticated decode_role (signed_in "admin") 99999 ≡ true)
    × (is_authenticated decode_role (signed_in "admin") 100000 ≡ false)
    × (is_authenticated decode_role (signed_in "bad") 0 ≡ false)
    × (is_authenticated decode_role (signed_in "") 0 ≡ false)
unfolding is_authenticated
live_until_expiry = (refl, refl, refl, refl)

username_is_sub : get_username decode_role (signed_in "admin") ≡ some "u1"
unfolding get_username
username_is_sub = refl

abbrev ask_users : HttpRequest
ask_users = client get "/admin/users" empty

bearer_sent : (on_request (signed_in "t") ask_users).authorization ≡ some "Bearer t"
unfolding on_request
bearer_sent = refl

no_credential_after_401_example :
    (on_request
      (run (signed_in "t") (
        login_settled (resolved "u")
        ∷ settled (rejected (axios_error (some 401) "expired"))
        ∷ settled (resolved tt)
        ∷ []))
      ask_users).authorization
    ≡ none
no_credential_after_401_example =
    no_credential_after_401 (signed_in "t") (login_settled (resolved "u") ∷ [])
      (settled (resolved tt) ∷ []) "expired" ask_users refl (tt, tt)
