-- ===== src/Admin/Cases/NewCase.antt =====
-- AddCaseModal of forensic-ui/src/pages/AdminPage.tsx: the pattern of a case number, its state, and
-- its submit handler. `toUpperCase` is a parameter.
use Prim.Native.Char.{code}
use forensic_chain.Common.{
  ℕ, zero, suc, String, Bool, true, false, Option, none, some, List, [], ◌∷◌, ◌++◌, if◌then◌else◌,
  ltb, eqb, not, ◌&&◌, is_truthy,
}
use forensic_chain.Api.{Case}
use forensic_chain.Api.Endpoints
use forensic_chain.Http.{
  Browser, HttpRequest, Reply, resolved, rejected, Failure, status_of, is_status, on_request,
}

-- What a position of the pattern admits.
pub data Class : Type 0 where
  letter : ℕ → Class
  digit : Class

unfoldable pub admits : Class → ℕ → Bool
admits (letter n) c = eqb c n
admits digit c = not (ltb c 48) && not (ltb 57 c)

-- The characters of a text, each to itself.
unfoldable pub spelled : String → List Class
spelled String.[] = []
spelled (String.◌∷◌ c s) = letter (code c) ∷ spelled s

-- `\d{n}`
unfoldable pub digit_classes : ℕ → List Class
digit_classes zero = []
digit_classes (suc n) = digit ∷ digit_classes n

-- `CASE_RE`
unfoldable pub case_re : List Class
unfolding spelled digit_classes
case_re = spelled "CASE-" ++ digit_classes 4 ++ spelled "-" ++ digit_classes 3

-- `re.test(s)` for a pattern between `^` and `$`.
unfoldable pub test : List Class → String → Bool
unfolding admits
test [] String.[] = true
test [] (String.◌∷◌ c s) = false
test (p ∷ ps) String.[] = false
test (p ∷ ps) (String.◌∷◌ c s) = admits p (code c) && test ps s

pub record State : Type 0 where
  pub case_number : String
  pub title : String
  pub desc : String
  pub error : Option String
  pub saving : Bool

abbrev pub init : State
init = record { case_number = ""; title = ""; desc = ""; error = none; saving = false }

unfoldable pub type_number : (String → String) → String → State → State
type_number to_upper text s = record s { case_number = to_upper text }

unfoldable pub type_title : String → State → State
type_title text s = record s { title = text }

unfoldable pub type_desc : String → State → State
type_desc text s = record s { desc = text }

-- `desc || undefined`
abbrev optional : String → Option String
optional s = if is_truthy s then some s else none

-- `handleSubmit` up to its `await`.
unfoldable pub submit_started : Browser → State → State × Option HttpRequest
unfolding test case_re
submit_started b s =
    if not (test case_re s.case_number)
    then (record s { error = some "Format must be CASE-YYYY-NNN (e.g. CASE-2026-001)" }, none)
    else (
      record s { saving = true; error = none },
      some (on_request b (Endpoints.create_case s.case_number s.title (optional s.desc))),
    )

unfoldable pub create_error : Failure → String
create_error err =
    if is_status (status_of err) 409
    then "Case number already exists."
    else "Failed to create case. Please try again."

-- `handleSubmit` from its `await` on, with the case that is passed to `onCreated`, if any.
unfoldable pub submit_settled : Reply Case → State → State × Option Case
unfolding create_error
submit_settled (resolved c) s = (record s { saving = false }, some c)
submit_settled (rejected err) s =
    (record s { error = some (create_error err); saving = false }, none)
