-- ===== src/Auth.antt =====
-- forensic-ui/src/hooks/useAuth.ts and forensic-ui/src/api/auth.ts: the stored token and what the
-- client reads from it. `jwtDecode` is a parameter; that it throws is `none`. Times are
-- milliseconds, `exp` is in seconds.
pub mod Roles
pub mod Session
pub mod Examples
use forensic_chain.Common.{
  ℕ, ◌*◌, String, Bool, true, false, Option, none, some, List, [], ◌∷◌, if◌then◌else◌, ltb,
  is_present, or_else, contains, is_some,
}
use forensic_chain.Http.{Browser, Reply, resolved, rejected, on_reply}

pub record JwtPayload : Type 0 where
  pub sub : String
  pub username : Option String
  pub role : String
  pub exp : ℕ

abbrev pub get_token : Browser → Option String
get_token b = b.token

unfoldable pub set_token : String → Browser → Browser
set_token token b = record b { token = some token }

unfoldable pub clear_token : Browser → Browser
clear_token b = record b { token = none }

-- `logout` of `useAuth`, and that of api/auth.ts.
unfoldable pub logout : Browser → Browser
unfolding clear_token
logout b = record (clear_token b) { location = some "/login" }

-- `login` once the reply is there: the interceptors have seen it, and a success stores the token.
unfoldable pub login_reply : Browser → Reply String → Browser
unfolding set_token on_reply
login_reply b (resolved token) = set_token token b
login_reply b (rejected err) = on_reply {A = String} b (rejected err)

-- What `useAuth` returns, less its functions.
pub record AuthView : Type 0 where
  pub token : Option String
  pub username : Option String
  pub role : Option String
  pub authenticated : Bool

-- `decodeToken`: the catch clause makes `null` of a token that `jwtDecode` refuses.
abbrev decode_stored : (String → Option JwtPayload) → Option String → Option JwtPayload
decode_stored jwt_decode none = none
decode_stored jwt_decode (some token) = if is_present (some token) then jwt_decode token else none

module _ (jwt_decode : String → Option JwtPayload) (b : Browser) where
  unfoldable pub decode_token : Option JwtPayload
  decode_token = decode_stored jwt_decode (get_token b)

  unfoldable pub is_authenticated : ℕ → Bool
  unfolding decode_token
  is_authenticated now = elim decode_token [
    | none ↦ false
    | some payload ↦ ltb now (payload.exp * 1000)
  ]

  unfoldable pub get_role : Option String
  unfolding decode_token
  get_role = elim decode_token [ none ↦ none | some payload ↦ some payload.role ]

  unfoldable pub get_username : Option String
  unfolding decode_token
  get_username = elim decode_token [
    | none ↦ none
    | some payload ↦ some (or_else payload.username payload.sub)
  ]

  unfoldable pub has_role : List String → Bool
  unfolding get_role
  has_role roles = elim get_role [
    | none ↦ false
    | some role ↦ if is_present (some role) then contains roles role else false
  ]

  unfoldable pub use_auth : ℕ → AuthView
  unfolding decode_token is_authenticated
  use_auth now = record {
    token = get_token b;
    username = elim decode_token [
      | none ↦ none
      | some payload ↦ some (or_else payload.username payload.sub)
    ];
    role = elim decode_token [ none ↦ none | some payload ↦ some payload.role ];
    authenticated = is_authenticated now;
  }
