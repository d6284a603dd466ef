-- ===== src/ImmutableLedger/Reversed.antt =====
-- A list turned round in front of another.
use forensic_chain.Common.{List, [], ◌∷◌, map, ◌≡◌, refl, sym, ◌∙◌, ap, ◌⊎◌, inl, inr, Holds}

unfoldable pub rev_onto {ℓ} : {A : Type ℓ} → List A → List A → List A
rev_onto [] acc = acc
rev_onto (x ∷ xs) acc = rev_onto xs (x ∷ acc)

rev_onto-rev_onto {ℓ} :
    {A : Type ℓ} (xs acc : List A) → rev_onto (rev_onto xs acc) [] ≡ rev_onto acc xs
unfolding rev_onto
rev_onto-rev_onto [] acc = refl
rev_onto-rev_onto (x ∷ xs) acc = rev_onto-rev_onto xs (x ∷ acc)

map-rev_onto {ℓ} :
    {A B : Type ℓ} (f : A → B) (xs acc : List A)
    → map f (rev_onto xs acc) ≡ rev_onto (map f xs) (map f acc)
unfolding rev_onto
map-rev_onto f [] acc = refl
map-rev_onto f (x ∷ xs) acc = map-rev_onto f xs (x ∷ acc)

pub map-rev_onto_inj {ℓ} :
    {A B : Type ℓ} (f : A → B) (xs ys : List A)
    → map f (rev_onto xs []) ≡ map f (rev_onto ys [])
    → map f xs ≡ map f ys
unfolding rev_onto
map-rev_onto_inj f xs ys e =
    sym (rev_onto-rev_onto (map f xs) [])
    ∙ ap (λ l. rev_onto l []) (sym (map-rev_onto f xs []) ∙ e ∙ map-rev_onto f ys [])
    ∙ rev_onto-rev_onto (map f ys) []

Holds-rev_onto :
    {A : Type 0} (r : A) (rs acc : List A) → Holds r (rev_onto rs acc) → Holds r rs ⊎ Holds r acc
unfolding rev_onto
Holds-rev_onto r [] acc h = inr h
Holds-rev_onto r (y ∷ rs) acc h = elim (Holds-rev_onto r rs (y ∷ acc) h) [
  | inl m ↦ inl (inr m)
  | inr (inl e) ↦ inl (inl e)
  | inr (inr m) ↦ inr m
]

-- A record of a list that was turned round is of the list.
pub Holds-turned : {A : Type 0} (r : A) (rs : List A) → Holds r (rev_onto rs []) → Holds r rs
Holds-turned r rs h = elim (Holds-rev_onto r rs [] h) [ inl m ↦ m | inr m ↦ absurd m ]
