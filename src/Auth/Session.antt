-- ===== src/Auth/Session.antt =====
-- A session of the client as a sequence of events, and the credential that its requests carry.
use forensic_chain.Common.{String, none, some, List, [], ◌∷◌, ◌++◌, ◌≡◌, refl, arith, All}
use forensic_chain.Http.{
  Browser, HttpRequest, axios_error, on_request, Reply, resolved, rejected, on_reply,
}
use forensic_chain.Auth.{logout, login_reply}

-- What happens between two requests: some call settles, a login settles, the user signs out.
pub data Event : Type 0 where
  settled : Reply (Unit {0}) → Event
  login_settled : Reply String → Event
  signed_out : Event

pub step : Browser → Event → Browser
step b (settled r) = on_reply b r
step b (login_settled r) = login_reply b r
step b signed_out = logout b

pub run : Browser → List Event → Browser
run b [] = b
run b (e ∷ es) = run (step b e) es

-- Every event but a login that succeeds.
abbrev pub IsNoLogin : Event → Type 0
IsNoLogin (settled r) = Unit
IsNoLogin (login_settled (resolved token)) = ⊥
IsNoLogin (login_settled (rejected err)) = Unit
IsNoLogin signed_out = Unit

abbrev pub Anonymous : Browser → Type 0
Anonymous b = b.token ≡ none

step-Anonymous : (b : Browser) (e : Event) → IsNoLogin e → Anonymous b → Anonymous (step b e)
unfolding step on_reply login_reply logout
step-Anonymous b (settled (resolved a)) h k = k
step-Anonymous b (settled (rejected err)) h k = ground arith
step-Anonymous b (login_settled (resolved token)) h k = absurd h
step-Anonymous b (login_settled (rejected err)) h k = ground arith
step-Anonymous b signed_out h k = refl

run-Anonymous :
    (b : Browser) (es : List Event) → All IsNoLogin es → Anonymous b → Anonymous (run b es)
unfolding run
run-Anonymous b [] h k = k
run-Anonymous b (e ∷ es) h k = run-Anonymous (step b e) es h.1 (step-Anonymous b e h.0 k)

run-append : (b : Browser) (es fs : List Event) → run b (es ++ fs) ≡ run (run b es) fs
unfolding run
run-append b [] fs = refl
run-append b (e ∷ es) fs = run-append (step b e) es fs

request-Anonymous :
    (b : Browser) (r : HttpRequest)
    → r.authorization ≡ none
    → Anonymous b
    → (on_request b r).authorization ≡ none
unfolding on_request
request-Anonymous b r h k = ground arith

-- Once some call has failed with status 401, no request carries a credential until a login
-- succeeds, whatever else happens: every request made after the 401 and after further events
-- `later`, none of them a successful login, goes out with no Authorization header.
pub no_credential_after_401 :
    (b : Browser) (earlier later : List Event) (message : String) (r : HttpRequest)
    → r.authorization ≡ none
    → All IsNoLogin later
    → (on_request
        (run b (earlier ++ settled (rejected (axios_error (some 401) message)) ∷ later))
        r).authorization
      ≡ none
unfolding step run on_reply
no_credential_after_401 b earlier later message r h k =
    rw (run-append b earlier (settled (rejected (axios_error (some 401) message)) ∷ later)) (
      request-Anonymous _ r h (
        run-Anonymous (step (run b earlier) (settled (rejected (axios_error (some 401) message))))
          later k refl))
