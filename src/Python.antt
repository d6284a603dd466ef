-- ===== src/Python.antt =====
-- What the Python services use of their language: exceptions as values, and methods of `str`.
use Prim.Native.Char.{code}
use forensic_chain.Common.{
  ℕ, String, Bool, true, false, Option, none, some, List, [], if◌then◌else◌, ltb, eqb, not, ◌&&◌,
  ◌||◌, ◌==◌, ◌≡◌, ◌↔◌, ◌⊎◌, inl, inr, refl, ap, subst, arith, eq_iff,
}

-- How a call ends: it returns a value, or raises an exception, of which `str(e)` is kept.
pub data Attempt (A : Type 0) : Type 0 where
  returned : A → Attempt A
  raised : String → Attempt A

-- `c.isspace()`
unfoldable pub is_space : ℕ → Bool
is_space c =
    (not (ltb c 9) && not (ltb 13 c))
    || (not (ltb c 28) && not (ltb 32 c))
    || eqb c 133
    || eqb c 160
    || eqb c 5760
    || (not (ltb c 8192) && not (ltb 8202 c))
    || eqb c 8232
    || eqb c 8233
    || eqb c 8239
    || eqb c 8287
    || eqb c 12288

unfoldable pub strip_start : String → String
strip_start String.[] = ""
strip_start (String.◌∷◌ c s) =
    let rest = strip_start s in if is_space (code c) then rest else String.◌∷◌ c s

unfoldable pub strip_end : String → String
strip_end String.[] = ""
strip_end (String.◌∷◌ c s) =
    let rest = strip_end s in if rest == "" && is_space (code c) then "" else String.◌∷◌ c rest

-- `s.strip()`
unfoldable pub strip : String → String
unfolding strip_start strip_end is_space
strip s = strip_end (strip_start s)

-- `a == b` at `str | None`
abbrev pub same_option : Option String → Option String → Bool
same_option none none = true
same_option (some a) (some b) = a == b
same_option _ _ = false

pub same_option_iff : (a b : Option String) → (same_option a b ≡ true) ↔ (a ≡ b)
same_option_iff none none = (λ _. refl, λ _. refl)
same_option_iff none (some b) = (λ e. cc, λ e. cc)
same_option_iff (some a) none = (λ e. cc, λ e. cc)
same_option_iff (some a) (some b) =
    (λ e. ap some ((eq_iff a b).0 e), λ e. (eq_iff a b).1 (ground arith))

-- `{s}` in a formatted string, at `str | None`
abbrev pub format_option : Option String → String
format_option none = "None"
format_option (some s) = s

-- `s or ""`
abbrev pub or_empty : Option String → String
or_empty none = ""
or_empty (some s) = s

pub Attempt-cases :
    {A : Type 0} (a : Attempt A)
    → ((v : A) × (a ≡ returned v)) ⊎ ((message : String) × (a ≡ raised message))
Attempt-cases (returned v) = inl (v, refl)
Attempt-cases (raised message) = inr (message, refl)

-- The rest of a call, which an exception skips.
unfoldable pub and_next : {A B : Type 0} → Attempt A → (A → Attempt B) → Attempt B
and_next (returned a) f = f a
and_next (raised message) f = raised message

-- A call raises, or what it returns satisfies `P`.
unfoldable pub Ends : {A : Type 0} → (A → Type 0) → Attempt A → Type 0
Ends P (returned a) = P a
Ends P (raised message) = Unit

pub Ends-value : {A : Type 0} (P : A → Type 0) (a : A) → P a → Ends P (returned a)
unfolding Ends
Ends-value P a h = h

pub Ends-raised : {A : Type 0} (P : A → Type 0) (message : String) → Ends P (raised message)
unfolding Ends
Ends-raised P message = tt

pub Ends-returned :
    {A : Type 0} (P : A → Type 0) (m : Attempt A) (a : A) → Ends P m → m ≡ returned a → P a
unfolding Ends
Ends-returned P m a h e = subst (Ends P) e h

pub Ends-imp :
    {A : Type 0} (P Q : A → Type 0) (m : Attempt A) → ((a : A) → P a → Q a) → Ends P m → Ends Q m
unfolding Ends
Ends-imp P Q (returned a) f h = f a h
Ends-imp P Q (raised message) f h = tt

pub and_next-Ends :
    {A B : Type 0} (P : B → Type 0) (m : Attempt A) (f : A → Attempt B)
    → ((a : A) → m ≡ returned a → Ends P (f a))
    → Ends P (and_next m f)
unfolding Ends and_next
and_next-Ends P (returned a) f h = h a refl
and_next-Ends P (raised message) f h = tt

-- How a handler of FastAPI ends: with a body, or with an `HTTPException` of a status and a detail.
pub data Answer (A : Type 0) : Type 0 where
  answered : A → Answer A
  http_error : ℕ → String → Answer A

-- The answer to an exception that a handler does not catch.
abbrev pub uncaught : {A : Type 0} → Answer A
uncaught = http_error 500 "Internal Server Error"

unfoldable pub and_then : {A B : Type 0} → Answer A → (A → Answer B) → Answer B
and_then (answered a) f = f a
and_then (http_error status detail) f = http_error status detail

pub and_then-answered :
    {A B : Type 0} (m : Answer A) (f : A → Answer B) (b : B)
    → and_then m f ≡ answered b
    → (a : A) × (m ≡ answered a) × (f a ≡ answered b)
unfolding and_then
and_then-answered (answered a) f b e = (a, refl, e)
and_then-answered (http_error status detail) f b e = cc

-- A handler ends with an error, or what it answers satisfies `P`.
unfoldable pub Gives : {A : Type 0} → (A → Type 0) → Answer A → Type 0
Gives P (answered a) = P a
Gives P (http_error status detail) = Unit

pub Gives-value : {A : Type 0} (P : A → Type 0) (a : A) → P a → Gives P (answered a)
unfolding Gives
Gives-value P a h = h

pub Gives-error :
    {A : Type 0} (P : A → Type 0) (status : ℕ) (detail : String)
    → Gives P (http_error status detail)
unfolding Gives
Gives-error P status detail = tt

pub Gives-answered :
    {A : Type 0} (P : A → Type 0) (m : Answer A) (a : A) → Gives P m → m ≡ answered a → P a
unfolding Gives
Gives-answered P m a h e = subst (Gives P) e h

pub and_then-Gives :
    {A B : Type 0} (P : B → Type 0) (m : Answer A) (f : A → Answer B)
    → ((a : A) → m ≡ answered a → Gives P (f a))
    → Gives P (and_then m f)
unfolding Gives and_then
and_then-Gives P (answered a) f h = h a refl
and_then-Gives P (http_error status detail) f h = tt

-- A GET of another service: the status and what `resp.json().get("case_numbers", [])` gives, each
-- of which may raise.
abbrev pub AssignmentsFetch : Type 0
AssignmentsFetch = Attempt (ℕ × Attempt (List String))

-- The list that is kept: `[]` on any status but 200 and on any exception.
unfoldable pub assigned_of : AssignmentsFetch → List String
assigned_of (raised message) = []
assigned_of (returned (status, raised message)) = []
assigned_of (returned (status, returned case_numbers)) = if eqb status 200 then case_numbers else []
