-- ===== src/Common/Lists.antt =====
-- Arrays as lists: the operations of the source's arrays, under the library's names.
use Prim.Native.Nat.{ℕ, suc, zero, ◌≤◌}
use Prim.Native.String.{String}
use mathlib.Core.Path.{◌≡◌, sym, ap, subst, ◌∙◌}
use mathlib.Core.Logic.{◌↔◌, ◌⊎◌, inl, inr}
use mathlib.Core.Bool.{Bool, true, false, ◌||◌}
use mathlib.Core.Option.{Option, none, some}
use mathlib.Core.List.{List, [], ◌∷◌}
use native.Mathlib.Omega.{arith}
use text.Mathlib.Text.{◌==◌}
use text.Mathlib.TextEquality.{eq_iff}
use forensic_chain.Common.Tests.{if◌then◌else◌, Bool-cases}

module _ {A : Type 0} where
  abbrev pub length : List A → ℕ
  length [] = 0
  length (x ∷ xs) = suc (length xs)

  -- `xs.filter(p)`
  unfoldable pub filter : (A → Bool) → List A → List A
  filter p [] = []
  filter p (x ∷ xs) = let rest = filter p xs in if p x then x ∷ rest else rest

  -- `xs.find(p)`
  unfoldable pub find : (A → Bool) → List A → Option A
  find p [] = none
  find p (x ∷ xs) = if p x then some x else find p xs

  -- `xs.slice(0, n)`
  unfoldable pub take : ℕ → List A → List A
  take zero xs = []
  take (suc n) [] = []
  take (suc n) (x ∷ xs) = x ∷ take n xs

  -- What the array holds, as a predicate by recursion.
  abbrev pub Holds : A → List A → Type 0
  Holds a [] = ⊥
  Holds a (x ∷ xs) = (a ≡ x) ⊎ Holds a xs

  abbrev pub All : (A → Type 0) → List A → Type 0
  All P [] = Unit
  All P (x ∷ xs) = P x × All P xs

  pub All-at : (P : A → Type 0) (xs : List A) (a : A) → All P xs → Holds a xs → P a
  All-at P [] a h m = absurd m
  All-at P (x ∷ xs) a h (inl e) = subst P (sym e) h.0
  All-at P (x ∷ xs) a h (inr m) = All-at P xs a h.1 m

  -- A filter keeps exactly what it held before and passes the test.
  pub Holds-filter :
      (p : A → Bool) (xs : List A) (a : A) → Holds a (filter p xs) ↔ (Holds a xs × (p a ≡ true))
  unfolding filter
  Holds-filter p [] a = (λ h. absurd h, λ h. h.0)
  Holds-filter p (x ∷ xs) a = elim (Bool-cases (p x)) [
    | inl t ↦ rw t (
      (λ h. elim h [
        | inl e ↦ (inl e, ap p e ∙ t)
        | inr m ↦ let (old, ok) = (Holds-filter p xs a).0 m in (inr old, ok)
      ]),
      (λ (h, ok). elim h [ inl e ↦ inl e | inr m ↦ inr ((Holds-filter p xs a).1 (m, ok)) ]),
    )
    | inr f ↦ rw f (
      (λ m. let (old, ok) = (Holds-filter p xs a).0 m in (inr old, ok)),
      (λ (h, ok). elim h [
        | inl e ↦ absurd (cc (ap p e))
        | inr m ↦ (Holds-filter p xs a).1 (m, ok)
      ]),
    )
  ]

  pub length-filter-le : (p : A → Bool) (xs : List A) → length (filter p xs) ≤ length xs
  unfolding filter
  length-filter-le p [] = omega arith
  length-filter-le p (x ∷ xs) = ground (arith, length-filter-le p xs)

  pub find-eq-some :
      (p : A → Bool) (xs : List A) (a : A) → find p xs ≡ some a → Holds a xs × (p a ≡ true)
  unfolding find
  find-eq-some p [] a e = cc
  find-eq-some p (x ∷ xs) a e = elim (Bool-cases (p x)) [
    | inl t ↦ (inl (ground arith), ground arith)
    | inr f ↦ let (m, ok) = find-eq-some p xs a (ground arith) in (inr m, ok)
  ]

-- `xs.includes(s)` on an array of strings
unfoldable pub contains : List String → String → Bool
contains [] s = false
contains (x ∷ xs) s = x == s || contains xs s

pub contains_iff : (xs : List String) (s : String) → (contains xs s ≡ true) ↔ Holds s xs
unfolding contains
contains_iff [] s = ((λ e. cc), (λ h. absurd h))
contains_iff (x ∷ xs) s = elim (Bool-cases (x == s)) [
  | inl t ↦ ((λ _. inl (sym ((eq_iff x s).0 t))), (λ _. rw t))
  | inr f ↦ rw f (
    (λ e. inr ((contains_iff xs s).0 e)),
    (λ h. elim h [
      | inl e ↦ absurd (cc ((eq_iff x s).1 (sym e)))
      | inr m ↦ (contains_iff xs s).1 m
    ]),
  )
]
