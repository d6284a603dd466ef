-- ===== src/AuthService/Login.antt =====
-- services/auth-service/routers/auth.py, jwt.py and routers/internal.py: a login gives out a token, and
-- the gateway has it validated. bcrypt, the library of tokens and `str.upper` are parameters.
use Prim.Native.Char.{code}
use Prim.Native.String.{◌++◌}
use text.Mathlib.TextLemmas.{nil-append, cons-append}
use forensic_chain.Common.{
  ℕ, ◌+◌, ◌<◌, String, Bool, true, Option, none, some, ◌≡◌, refl, ◌∙◌, ap, inl, inr, arith, eqb_iff,
  eq_iff, Bool-cases, if◌then◌else◌, not, ◌||◌, ◌==◌, find, find-eq-some, Holds, is_truthy, or_else,
  is_present,
}
use forensic_chain.Python.{Answer, answered, http_error}
use forensic_chain.Rbac.{after, is_let_through}
use forensic_chain.AuthService.Store.{User, AuthDb}

-- The payload of a token; times in seconds.
pub record Claims : Type 0 where
  pub sub : String
  pub role : String
  pub iat : ℕ
  pub exp : ℕ

pub record Externals : Type 0 where
  -- `bcrypt.checkpw`
  pub checkpw : String → String → Bool
  -- `jose_jwt.encode` and `decode` with the secret of the service; none on a `JWTError`, which an
  -- expired token raises too
  pub encode : Claims → String
  pub decode : ℕ → String → Option Claims
  pub upper : String → String

-- 480 minutes
abbrev pub jwt_expire_seconds : ℕ
jwt_expire_seconds = 28800

unfoldable pub claims_of : ℕ → String → String → Claims
claims_of now subject role = record {
  sub = subject;
  role = role;
  iat = now;
  exp = now + jwt_expire_seconds;
}

module _ (x : Externals) where
  unfoldable pub create_access_token : ℕ → String → String → String
  create_access_token now subject role = x.encode (claims_of now subject role)

  -- Until it expires, the token of a login of any user at the time `now` decodes to its payload.
  abbrev pub DecodesOwn : ℕ → AuthDb → Type 0
  DecodesOwn now db =
      (u : User)
      → Holds u db.users
      → (t : ℕ) → t < now + jwt_expire_seconds
      → x.decode t (create_access_token now u.username u.role)
        ≡ some (claims_of now u.username u.role)

  unfoldable pub refused : {A : Type 0} → Answer A
  refused = http_error 401 "Invalid credentials"

  unfoldable pub login_as : ℕ → String → Option User → Answer String
  login_as now password none = refused
  login_as now password (some u) =
      if not u.is_active || not (x.checkpw password u.hashed_password)
      then refused
      else answered (create_access_token now u.username u.role)

  -- `login`
  unfoldable pub login : ℕ → AuthDb → String → String → Answer String
  login now db username password =
      login_as now password (find (λ u. u.username == username) db.users)

  -- What the gateway passes on: the user and his role.
  unfoldable pub identify : String → String → Option Claims → Answer (String × String)
  identify uri method none = http_error 401 "Invalid token"
  identify uri method (some c) =
      if not (is_let_through c.role method uri)
      then http_error 403 "Forbidden"
      else answered (c.sub, c.role)

  -- The header without its prefix, if it has it.
  unfoldable pub bearer_token : Option String → Option String
  bearer_token none = none
  bearer_token (some header) = after "Bearer " header

  unfoldable pub validate_token :
      ℕ → Option String → Option String → Option String → Answer (String × String)
  validate_token now uri method none = http_error 401 "Missing token"
  validate_token now uri method (some token) =
      identify (if is_present uri then or_else uri "/" else "/")
        (x.upper (if is_present method then or_else method "GET" else "GET")) (x.decode now token)

  -- `validate`
  unfoldable pub validate :
      ℕ → Option String → Option String → Option String → Answer (String × String)
  validate now authorization uri method = validate_token now uri method (bearer_token authorization)

after-append : (p s : String) → after p (p ++ s) ≡ some s
unfolding after
after-append String.[] s = ap some (nil-append s)
after-append (String.◌∷◌ c p) s =
    rw cons-append (rw (after-append p s) (ground (arith, (eqb_iff (code c) (code c)).1 refl)))

module _ (x : Externals) where
  login_as-answered :
      (now : ℕ) (password : String) (o : Option User) (token : String)
      → login_as x now password o ≡ answered token
      → (u : User) × (o ≡ some u)
        × (u.is_active ≡ true)
        × (x.checkpw password u.hashed_password ≡ true)
        × (token ≡ create_access_token x now u.username u.role)
  unfolding login_as refused
  login_as-answered now password none token e = cc
  login_as-answered now password (some u) token e =
      (u, refl, ground (arith, e), ground (arith, e), ground (arith, e))

  identify-eq :
      (uri method : String) (c : Claims)
      → identify x uri method (some c) ≡ (
          if is_let_through c.role method uri
          then answered (c.sub, c.role)
          else http_error 403 "Forbidden")
  unfolding identify
  identify-eq uri method c = elim (Bool-cases (is_let_through c.role method uri)) [
    | inl t ↦ rw t refl
    | inr f ↦ rw f refl
  ]

  validate-created :
      (now later : ℕ) (subject role uri method : String)
      → x.decode later (create_access_token x now subject role) ≡ some (claims_of now subject role)
      → is_truthy uri ≡ true
      → is_truthy method ≡ true
      → validate x later
          (some ("Bearer " ++ create_access_token x now subject role))
          (some uri)
          (some method)
        ≡ (if is_let_through role (x.upper method) uri
            then answered (subject, role)
            else http_error 403 "Forbidden")
  unfolding validate validate_token bearer_token claims_of
  validate-created now later subject role uri method decoded has_uri has_method =
      ap (validate_token x later (some uri) (some method))
        (after-append "Bearer " (create_access_token x now subject role))
      ∙ rw (has_uri, has_method) (ap (identify x uri (x.upper method)) decoded)
      ∙ identify-eq uri (x.upper method) (claims_of now subject role)

  -- A token is given only to an active user with the right password. Until it expires, and as long as
  -- a token is decoded to what was encoded, a request with it that names its location and method
  -- passes as that user in the role he had, exactly where the rules let the role through.
  pub validate-login :
      (now later : ℕ) (db : AuthDb) (username password token uri method : String)
      → DecodesOwn x now db
      → login x now db username password ≡ answered token
      → later < now + jwt_expire_seconds
      → is_truthy uri ≡ true
      → is_truthy method ≡ true
      → (u : User) × Holds u db.users
        × (u.username ≡ username)
        × (u.is_active ≡ true)
        × (x.checkpw password u.hashed_password ≡ true)
        × (validate x later (some ("Bearer " ++ token)) (some uri) (some method) ≡ (
            if is_let_through u.role (x.upper method) uri
            then answered (username, u.role)
            else http_error 403 "Forbidden"))
  unfolding login validate
  validate-login now later db username password token uri method decodes e early has_uri
        has_method =
      let (u, located, active, checked, made) = login_as-answered now password _ token e in
      let (held, named) = find-eq-some (λ v. v.username == username) db.users u located in
      (
        u,
        held,
        (eq_iff u.username username).0 named,
        active,
        checked,
        ap (λ t. validate x later (some ("Bearer " ++ t)) (some uri) (some method)) made
            ∙ validate-created now later u.username u.role uri method (decodes u held later early)
                has_uri has_method
            ∙ ap
                (λ n.
                  if is_let_through u.role (x.upper method) uri
                  then answered (n, u.role)
                  else http_error 403 "Forbidden")
                ((eq_iff u.username username).0 named),
      )
