-- ===== src/AuthService/Tables.antt =====
-- Lists as tables: keys that determine the id of their row.
use forensic_chain.Common.{
  String, Bool, false, List, [], ◌∷◌, ◌++◌, map, ◌≡◌, ◌≢◌, refl, sym, ◌∙◌, ap, ◌⊎◌, inl, inr, arith,
  Bool-cases, Holds, Holds-filter, filter, find, is_some,
}

module _ {A : Type 0} where
  pub Holds-snoc : (a x : A) (xs : List A) → Holds a (xs ++ x ∷ []) → Holds a xs ⊎ (a ≡ x)
  Holds-snoc a x [] (inl e) = inr e
  Holds-snoc a x [] (inr m) = absurd m
  Holds-snoc a x (y ∷ xs) (inl e) = inl (inl e)
  Holds-snoc a x (y ∷ xs) (inr m) = elim (Holds-snoc a x xs m) [
    | inl k ↦ inl (inr k)
    | inr e ↦ inr e
  ]

  pub Holds-snoc_old : (a x : A) (xs : List A) → Holds a xs → Holds a (xs ++ x ∷ [])
  Holds-snoc_old a x (y ∷ xs) (inl e) = inl e
  Holds-snoc_old a x (y ∷ xs) (inr m) = inr (Holds-snoc_old a x xs m)
  Holds-snoc_old a x [] m = absurd m

  pub find-none :
      (p : A → Bool) (xs : List A) (a : A) → is_some (find p xs) ≡ false → Holds a xs → p a ≡ false
  unfolding find
  find-none p [] a e m = absurd m
  find-none p (x ∷ xs) a e m = elim (Bool-cases (p x)) [
    | inl t ↦ absurd (ground (arith, e, t))
    | inr f ↦ elim m [
      | inl same ↦ ap p same ∙ f
      | inr held ↦ find-none p xs a (ground (arith, e, f)) held
    ]
  ]

  pub Holds-map_from :
      (f : A → A) (xs : List A) (a : A) → Holds a (map f xs) → (b : A) × Holds b xs × (a ≡ f b)
  Holds-map_from f [] a m = absurd m
  Holds-map_from f (x ∷ xs) a (inl e) = (x, inl refl, e)
  Holds-map_from f (x ∷ xs) a (inr m) =
      let (b, held, e) = Holds-map_from f xs a m in (b, inr held, e)

  pub Holds-map_to : (f : A → A) (xs : List A) (a : A) → Holds a xs → Holds (f a) (map f xs)
  Holds-map_to f (x ∷ xs) a (inl e) = inl (ap f e)
  Holds-map_to f (x ∷ xs) a (inr m) = inr (Holds-map_to f xs a m)
  Holds-map_to f [] a m = absurd m

module _ {A K : Type 0} (key : A → K) (id : A → String) where
  -- Rows of one key have one id.
  abbrev pub Determines : List A → Type 0
  Determines xs = (a b : A) → Holds a xs → Holds b xs → key a ≡ key b → id a ≡ id b

  pub Determines-snoc :
      (x : A) (xs : List A)
      → ((a : A) → Holds a xs → key a ≢ key x)
      → Determines xs
      → Determines (xs ++ x ∷ [])
  Determines-snoc x xs fresh h a b m n e = elim (Holds-snoc a x xs m) [
    | inl old ↦ elim (Holds-snoc b x xs n) [
      | inl old' ↦ h a b old old' e
      | inr new' ↦ absurd (fresh a old (e ∙ ap key new'))
    ]
    | inr new ↦ elim (Holds-snoc b x xs n) [
      | inl old' ↦ absurd (fresh b old' (sym e ∙ ap key new))
      | inr new' ↦ ap id (new ∙ sym new')
    ]
  ]

  pub Determines-filter : (p : A → Bool) (xs : List A) → Determines xs → Determines (filter p xs)
  Determines-filter p xs h a b m n =
      h a b ((Holds-filter p xs a).0 m).0 ((Holds-filter p xs b).0 n).0

  pub Determines-map :
      (f : A → A) (xs : List A)
      → ((a : A) → Holds a xs → key (f a) ≡ key a)
      → ((a : A) → Holds a xs → id (f a) ≡ id a)
      → Determines xs
      → Determines (map f xs)
  Determines-map f xs same_key same_id h a b m n e =
      let (a', held, u) = Holds-map_from f xs a m in
      let (b', held', v) = Holds-map_from f xs b n in
      ap id u
      ∙ same_id a' held
      ∙ h a' b' held held'
          (sym (same_key a' held) ∙ sym (ap key u) ∙ e ∙ ap key v ∙ same_key b' held')
      ∙ sym (same_id b' held')
      ∙ sym (ap id v)
