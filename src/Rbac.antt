-- ===== src/Rbac.antt =====
-- services/auth-service/rbac.py, and the part of services/auth-service/routers/internal.py that asks
-- it about the location that the gateway passes on (services/gateway/auth_validate.conf:
-- `$request_uri`, with its query). The patterns are run as Python's `re.match` runs them.
pub mod Downloads
pub mod Examples
use Prim.Native.Char.{code}
use Prim.Native.String
use forensic_chain.Common.{
  ℕ, String, Bool, true, false, Option, none, some, List, [], ◌∷◌, if◌then◌else◌, eqb, not, ◌&&◌,
  ◌||◌, ◌==◌, or_else, contains,
}

-- The parts of the patterns: a text, `[^/]+`, `/?` and `$`.
pub data Piece : Type 0 where
  lit : String → Piece
  segment slash end : Piece

-- What follows `q` in a text that starts with it.
unfoldable pub after : String → String → Option String
after String.[] s = some s
after (String.◌∷◌ d q) String.[] = none
after (String.◌∷◌ d q) (String.◌∷◌ c s) =
    let rest = after q s in if eqb (code c) (code d) then rest else none

-- `[^/]+` before a pattern that `k` runs.
unfoldable pub some_run : (String → Bool) → String → Bool
some_run k String.[] = false
some_run k (String.◌∷◌ c s) = not (eqb (code c) b'/') && (k s || some_run k s)

-- `re.match` of a pattern that starts with `^`. `$` also stands before a last line break.
unfoldable pub matches : List Piece → String → Bool
unfolding after some_run
matches [] s = true
matches (lit t ∷ ps) s = elim (after t s) [ none ↦ false | some rest ↦ matches ps rest ]
matches (segment ∷ ps) s = some_run (matches ps) s
matches (slash ∷ ps) s =
    elim (after "/" s) [ none ↦ false | some rest ↦ matches ps rest ] || matches ps s
matches (end ∷ ps) s = (s == "" || s == "\n") && matches ps s

pub record Rule : Type 0 where
  pub method : String
  pub pattern : List Piece
  pub allowed : List String

abbrev pub uploaders : List String
uploaders = "investigator" ∷ "forensic_analyst" ∷ []

abbrev pub members : List String
members = "investigator" ∷ "forensic_analyst" ∷ "legal_reviewer" ∷ []

abbrev pub reviewers : List String
reviewers = "legal_reviewer" ∷ []

abbrev pub admins : List String
admins = "admin" ∷ []

abbrev rule : String → List Piece → List String → Rule
rule method pattern allowed = record { method = method; pattern = pattern; allowed = allowed }

-- `_RULES`
abbrev pub rules : List Rule
rules =
    rule "POST" (lit "/evidence" ∷ slash ∷ end ∷ []) uploaders
    ∷ rule "POST" (lit "/evidence/" ∷ segment ∷ lit "/verify" ∷ slash ∷ end ∷ []) members
    ∷ rule "GET" (lit "/evidence/" ∷ segment ∷ lit "/download" ∷ slash ∷ end ∷ []) uploaders
    ∷ rule "GET" (lit "/evidence" ∷ []) members
    ∷ rule "GET" (lit "/cases" ∷ []) members
    ∷ rule "GET" (lit "/custody" ∷ []) reviewers
    ∷ rule "POST" (lit "/reports" ∷ []) reviewers
    ∷ rule "GET" (lit "/reports" ∷ []) reviewers
    ∷ rule "GET" (lit "/ledger" ∷ []) reviewers
    ∷ rule "GET" (lit "/admin" ∷ []) admins
    ∷ rule "POST" (lit "/admin" ∷ []) admins
    ∷ rule "PATCH" (lit "/admin" ∷ []) admins
    ∷ rule "DELETE" (lit "/admin" ∷ []) admins
    ∷ []

-- The loop of `is_authorized`.
unfoldable pub decide : String → String → String → List Rule → Bool
unfolding matches contains
decide role method uri [] = false
decide role method uri (r ∷ rs) =
    let rest = decide role method uri rs in
    if r.method == method && matches r.pattern uri then contains r.allowed role else rest

unfoldable pub is_authorized : String → String → String → Bool
unfolding decide
is_authorized role method uri = decide role method uri rules

-- `raw_uri.removeprefix("/api")`, and the decision on it.
unfoldable pub is_let_through : String → String → String → Bool
unfolding is_authorized after
is_let_through role method raw_uri =
    is_authorized role method (or_else (after "/api" raw_uri) raw_uri)
