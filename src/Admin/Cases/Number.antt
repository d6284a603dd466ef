-- ===== src/Admin/Cases/Number.antt =====
-- Which case numbers the modal lets through.
use Prim.Native.Char.{code}
use Prim.Native.String.{◌++◌ as concat}
use text.Mathlib.TextEquality.{Char-path}
use text.Mathlib.TextLemmas.{nil-append, cons-append}
use forensic_chain.Common.{
  ℕ, zero, suc, ◌≤◌, String, true, none, some, List, [], ◌∷◌, ◌++◌, ◌≡◌, refl, sym, ◌↔◌, inl, inr,
  ◌⊎◌, arith, Bool-cases, is_truthy, if◌then◌else◌,
}
use forensic_chain.Api.Endpoints
use forensic_chain.Http.{Browser, on_request}
use forensic_chain.Admin.Cases.NewCase.{
  Class, spelled, digit_classes, case_re, test, State, submit_started,
}

-- A text of `n` digits.
abbrev pub IsDigits : ℕ → String → Type 0
IsDigits zero String.[] = Unit
IsDigits zero (String.◌∷◌ c s) = ⊥
IsDigits (suc n) String.[] = ⊥
IsDigits (suc n) (String.◌∷◌ c s) = (48 ≤ code c) × (code c ≤ 57) × IsDigits n s

-- `CASE-YYYY-NNN`
pub record IsCaseNumber (s : String) : Type 0 where
  pub year : String
  pub number : String
  pub spelling : s ≡ concat "CASE-" (concat year (concat "-" number))
  pub year_digits : IsDigits 4 year
  pub number_digits : IsDigits 3 number

test-append :
    (p q : List Class) (s : String)
    → test (p ++ q) s ≡ true
    → (a : String) × (b : String) × (s ≡ concat a b) × (test p a ≡ true) × (test q b ≡ true)
unfolding test
test-append [] q s e = ("", s, sym (nil-append s), refl, e)
test-append (x ∷ p) q String.[] e = cc
test-append (x ∷ p) q (String.◌∷◌ c s) e =
    let (a, b, split, left, right) = test-append p q s (ground arith) in
    (String.◌∷◌ c a, b, rw (cons-append, ← split), ground arith, right)

append-test :
    (p q : List Class) (a b : String)
    → test p a ≡ true
    → test q b ≡ true
    → test (p ++ q) (concat a b) ≡ true
unfolding test
append-test [] q String.[] b e f = rw nil-append f
append-test [] q (String.◌∷◌ c a) b e f = cc
append-test (x ∷ p) q String.[] b e f = cc
append-test (x ∷ p) q (String.◌∷◌ c a) b e f =
    rw cons-append (ground (arith, append-test p q a b (ground arith) f))

test-spelled : (t : String) → test (spelled t) t ≡ true
unfolding test spelled
test-spelled String.[] = refl
test-spelled (String.◌∷◌ c t) = ground (arith, test-spelled t)

spelled_sound : (t s : String) → test (spelled t) s ≡ true → s ≡ t
unfolding test spelled
spelled_sound String.[] String.[] e = refl
spelled_sound String.[] (String.◌∷◌ c s) e = cc
spelled_sound (String.◌∷◌ d t) String.[] e = cc
spelled_sound (String.◌∷◌ d t) (String.◌∷◌ c s) e =
    let same : c ≡ d = Char-path c d (ground arith) in
    let rest : s ≡ t = spelled_sound t s (ground arith) in rw (same, rest)

test-digit_classes : (n : ℕ) (s : String) → (test (digit_classes n) s ≡ true) ↔ IsDigits n s
unfolding test digit_classes
test-digit_classes zero String.[] = (λ e. tt, λ h. refl)
test-digit_classes zero (String.◌∷◌ c s) = (λ e. cc, λ h. absurd h)
test-digit_classes (suc n) String.[] = (λ e. cc, λ h. absurd h)
test-digit_classes (suc n) (String.◌∷◌ c s) = (
  λ e. (ground arith, ground arith, (test-digit_classes n s).0 (ground arith)),
  λ (low, high, h). ground (arith, (test-digit_classes n s).1 h),
)

case_re_sound : (s : String) → test case_re s ≡ true → IsCaseNumber s
unfolding case_re
case_re_sound s e =
    let (a, rest, split, left, right) = test-append (spelled "CASE-") _ s e in
    let (year, rest2, split2, left2, right2) = test-append (digit_classes 4) _ rest right in
    let (dash, number, split3, left3, right3) = test-append (spelled "-") _ rest2 right2 in
    record {
      year = year;
      number = number;
      spelling =
          rw (split, split2, split3, spelled_sound "CASE-" a left, spelled_sound "-" dash left3);
      year_digits = (test-digit_classes 4 year).0 left2;
      number_digits = (test-digit_classes 3 number).0 right3;
    }

IsCaseNumber-case_re : (s : String) → IsCaseNumber s → test case_re s ≡ true
unfolding case_re
IsCaseNumber-case_re s h = rw h.spelling (
    append-test (spelled "CASE-") _ "CASE-" _ (test-spelled "CASE-") (
      append-test (digit_classes 4) _ h.year _ ((test-digit_classes 4 h.year).1 h.year_digits) (
        append-test (spelled "-") _ "-" h.number (test-spelled "-")
          ((test-digit_classes 3 h.number).1 h.number_digits))))

-- The modal asks for a new case exactly when its number is spelled CASE-YYYY-NNN, four digits and
-- three: then it sends that number, the title and the description, if there is one, and with any other text it sends nothing and shows
-- the format.
pub submit_started-IsCaseNumber :
    (b : Browser) (s : State)
    → (IsCaseNumber s.case_number
        × ((submit_started b s).1
            ≡ some (
                on_request b (
                  Endpoints.create_case s.case_number s.title
                    (if is_truthy s.desc then some s.desc else none)))))
      ⊎ ((IsCaseNumber s.case_number → ⊥)
          × ((submit_started b s).1 ≡ none)
          × ((submit_started b s).0
              ≡ record s { error = some "Format must be CASE-YYYY-NNN (e.g. CASE-2026-001)" }))
unfolding submit_started
submit_started-IsCaseNumber b s = elim (Bool-cases (test case_re s.case_number)) [
  | inl fits ↦ inl (case_re_sound s.case_number fits, rw fits)
  | inr wrong ↦ inr ((λ h. cc (wrong, IsCaseNumber-case_re s.case_number h)), rw wrong, rw wrong)
]
