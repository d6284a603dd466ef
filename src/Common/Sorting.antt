-- ===== src/Common/Sorting.antt =====
-- `ORDER BY`: sorting a list by a test of what stands before what.
use Prim.Native.Nat.{suc}
use mathlib.Core.Path.{◌≡◌, refl, ap}
use mathlib.Core.Logic.{inl, inr, ◌⊎◌, ◌↔◌}
use mathlib.Core.Bool.{Bool, true, false}
use mathlib.Core.List.{List, [], ◌∷◌, ◌++◌, map}
use native.Mathlib.Omega.{arith}
use forensic_chain.Common.Tests.{if◌then◌else◌, Bool-cases}
use forensic_chain.Common.Lists.{All, Holds, filter, length}

module _ {A : Type 0} where
  pub filter-append :
      (p : A → Bool) (xs ys : List A) → filter p (xs ++ ys) ≡ filter p xs ++ filter p ys
  unfolding filter
  filter-append p [] ys = refl
  filter-append p (x ∷ xs) ys = ground (arith, filter-append p xs ys)

  pub All-filter : (P : A → Type 0) (p : A → Bool) (xs : List A) → All P xs → All P (filter p xs)
  unfolding filter
  All-filter P p [] h = tt
  All-filter P p (x ∷ xs) h = ground (arith, All-filter P p xs h.1, h.0)

  pub All-snoc : (P : A → Type 0) (xs : List A) (x : A) → All P xs → P x → All P (xs ++ x ∷ [])
  All-snoc P [] x h p = (p, tt)
  All-snoc P (y ∷ xs) x h p = (h.0, All-snoc P xs x h.1 p)

  pub All-imp : (P Q : A → Type 0) → ((a : A) → P a → Q a) → (xs : List A) → All P xs → All Q xs
  All-imp P Q f [] h = tt
  All-imp P Q f (x ∷ xs) h = (f x h.0, All-imp P Q f xs h.1)

  pub All-filter_test : (p : A → Bool) (xs : List A) → All (λ a. p a ≡ true) (filter p xs)
  unfolding filter
  All-filter_test p [] = tt
  All-filter_test p (x ∷ xs) = elim (Bool-cases (p x)) [
    | inl t ↦ rw t (t, All-filter_test p xs)
    | inr f ↦ rw f (All-filter_test p xs)
  ]

  pub length-snoc : (xs : List A) (x : A) → length (xs ++ x ∷ []) ≡ suc (length xs)
  length-snoc [] x = refl
  length-snoc (y ∷ xs) x = ground (arith, length-snoc xs x)

pub map-snoc :
    {A B : Type 0} (f : A → B) (xs : List A) (x : A) → map f (xs ++ x ∷ []) ≡ map f xs ++ f x ∷ []
map-snoc f [] x = refl
map-snoc f (y ∷ xs) x = ap (◌∷◌ (f y)) (map-snoc f xs x)

pub All-map :
    {A B : Type 0} (P : B → Type 0) (f : A → B) (xs : List A)
    → All (λ a. P (f a)) xs
    → All P (map f xs)
All-map P f [] h = tt
All-map P f (x ∷ xs) h = (h.0, All-map P f xs h.1)

pub length-map : {A B : Type 0} (f : A → B) (xs : List A) → length (map f xs) ≡ length xs
length-map f [] = refl
length-map f (x ∷ xs) = ground (arith, length-map f xs)

module _ {A : Type 0} (before : A → A → Bool) where
  unfoldable pub insert_by : A → List A → List A
  insert_by x [] = x ∷ []
  insert_by x (y ∷ ys) = let rest = insert_by x ys in if before y x then y ∷ rest else x ∷ y ∷ ys

  -- Rows that are equal in the order keep their places.
  unfoldable pub sort_by : List A → List A
  unfolding insert_by
  sort_by [] = []
  sort_by (x ∷ xs) = insert_by x (sort_by xs)

  -- Every entry stands before all later ones.
  abbrev pub IsAscending : List A → Type 0
  IsAscending [] = Unit
  IsAscending (x ∷ xs) = All (λ y. before x y ≡ true) xs × IsAscending xs

  pub IsAscending-snoc :
      (xs : List A) (x : A)
      → IsAscending xs
      → All (λ y. before y x ≡ true) xs
      → IsAscending (xs ++ x ∷ [])
  IsAscending-snoc [] x h above = (tt, tt)
  IsAscending-snoc (y ∷ xs) x h above =
      (All-snoc (λ z. before y z ≡ true) xs x h.0 above.0, IsAscending-snoc xs x h.1 above.1)

  pub insert_by-first :
      ((x y : A) → before x y ≡ true → before y x ≡ false)
      → (x : A) (xs : List A) → All (λ y. before x y ≡ true) xs
      → insert_by x xs ≡ x ∷ xs
  unfolding insert_by
  insert_by-first asym x [] h = refl
  insert_by-first asym x (y ∷ xs) h = rw (asym x y h.0) refl

  -- Rows that are in order already stay as they are.
  pub sort_by_of_IsAscending :
      ((x y : A) → before x y ≡ true → before y x ≡ false)
      → (xs : List A) → IsAscending xs
      → sort_by xs ≡ xs
  unfolding sort_by
  sort_by_of_IsAscending asym [] h = refl
  sort_by_of_IsAscending asym (x ∷ xs) h =
      rw (sort_by_of_IsAscending asym xs h.1) (insert_by-first asym x xs h.0)

  pub All-insert_by :
      (P : A → Type 0) (x : A) (xs : List A) → P x → All P xs → All P (insert_by x xs)
  unfolding insert_by
  All-insert_by P x [] p h = (p, tt)
  All-insert_by P x (y ∷ xs) p h = elim (Bool-cases (before y x)) [
    | inl t ↦ rw t (h.0, All-insert_by P x xs p h.1)
    | inr f ↦ rw f (p, h)
  ]

  pub All-sort_by : (P : A → Type 0) (xs : List A) → All P xs → All P (sort_by xs)
  unfolding sort_by
  All-sort_by P [] h = tt
  All-sort_by P (x ∷ xs) h = All-insert_by P x (sort_by xs) h.0 (All-sort_by P xs h.1)

  Holds-insert_by : (x a : A) (xs : List A) → Holds a (insert_by x xs) ↔ ((a ≡ x) ⊎ Holds a xs)
  unfolding insert_by
  Holds-insert_by x a [] = (λ h. h, λ h. h)
  Holds-insert_by x a (y ∷ xs) = elim (Bool-cases (before y x)) [
    | inr f ↦ rw f (λ h. h, λ h. h)
    | inl t ↦ rw t (
      (λ h. elim h [
        | inl e ↦ inr (inl e)
        | inr m ↦ elim ((Holds-insert_by x a xs).0 m) [ inl e ↦ inl e | inr k ↦ inr (inr k) ]
      ]),
      (λ h. elim h [
        | inl e ↦ inr ((Holds-insert_by x a xs).1 (inl e))
        | inr m ↦ elim m [ inl e ↦ inl e | inr k ↦ inr ((Holds-insert_by x a xs).1 (inr k)) ]
      ]),
    )
  ]

  -- Sorting keeps what a list holds.
  pub Holds-sort_by : (a : A) (xs : List A) → Holds a (sort_by xs) ↔ Holds a xs
  unfolding sort_by
  Holds-sort_by a [] = (λ h. h, λ h. h)
  Holds-sort_by a (x ∷ xs) = (
    (λ h. elim ((Holds-insert_by x a (sort_by xs)).0 h) [
      | inl e ↦ inl e
      | inr m ↦ inr ((Holds-sort_by a xs).0 m)
    ]),
    (λ h. elim h [
      | inl e ↦ (Holds-insert_by x a (sort_by xs)).1 (inl e)
      | inr m ↦ (Holds-insert_by x a (sort_by xs)).1 (inr ((Holds-sort_by a xs).1 m))
    ]),
  )
