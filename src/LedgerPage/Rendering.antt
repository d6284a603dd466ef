-- ===== src/LedgerPage/Rendering.antt =====
-- The regions of the rendered page, and the rows of its table.
use forensic_chain.Common.{
  ℕ, zero, suc, ◌+◌, String, true, false, Option, none, some, List, [], ◌∷◌, ◌≡◌, refl, ◌≢◌, ◌⊎◌,
  inl, inr, arith, is_truthy, is_some, Bool-cases, Option-cases, subst, not,
}
use forensic_chain.Api.{LedgerRecord}
use forensic_chain.LedgerPage.{State, Row, rows_from, view}

-- `xs[i]`
pub get_elem? : {A : Type 0} → List A → ℕ → Option A
get_elem? [] i = none
get_elem? (x ∷ xs) zero = some x
get_elem? (x ∷ xs) (suc i) = get_elem? xs i

-- The row at `i` is that of the record at `i`, if there is one, and is numbered from `n + 1` on.
abbrev pub RowOf : Option Row → Option LedgerRecord → ℕ → Type 0
RowOf none none number = Unit
RowOf (some r) (some rec) number =
    (r.number ≡ number) × (r.genesis ≡ not (is_some rec.previous_record_hash))
RowOf _ _ number = ⊥

module _ (locale_time : String → String) where
  rows_from-RowOf :
      (n i : ℕ) (recs : List LedgerRecord)
      → RowOf (get_elem? (rows_from locale_time n recs) i) (get_elem? recs i) (n + i + 1)
  unfolding rows_from get_elem?
  rows_from-RowOf n i [] = tt
  rows_from-RowOf n zero (r ∷ recs) = (omega arith, refl)
  rows_from-RowOf n (suc i) (r ∷ recs) =
      subst (RowOf (get_elem? (rows_from locale_time (suc n) recs) i) (get_elem? recs i))
        (omega arith) (rows_from-RowOf (suc n) i recs)

  -- When the page is neither loading nor in error, its table has a row for each record and no other,
  -- in order and numbered from 1, and marks as genesis exactly those with no previous hash.
  pub view_rows :
      (s : State) (i : ℕ)
      → s.loading ≡ false
      → s.error ≡ none
      → RowOf (get_elem? (view locale_time s).rows i) (get_elem? s.records i) (i + 1)
  unfolding view
  view_rows s i idle fine =
      rw (idle, fine)
        (subst (RowOf (get_elem? (rows_from locale_time 0 s.records) i) (get_elem? s.records i))
          (omega arith) (rows_from-RowOf 0 i s.records))

  List-cases : {A : Type 0} (xs : List A) → (xs ≡ []) ⊎ ((y : A) × (ys : List A) × (xs ≡ y ∷ ys))
  List-cases [] = inl refl
  List-cases (y ∷ ys) = inr (y, ys, refl)

  -- With a case selected, the page shows either rows or the note that there are none, never both;
  -- and neither while it loads or is in error.
  pub view_regions :
      (s : State)
      → is_truthy s.selected ≡ true
      → ((s.loading ≡ false)
          × (s.error ≡ none)
          × (((view locale_time s).rows ≢ []) × ((view locale_time s).none_found ≡ none)
              ⊎ ((view locale_time s).rows ≡ []) × ((view locale_time s).none_found ≢ none)))
        ⊎ (((s.loading ≡ true) ⊎ (s.error ≢ none))
            × ((view locale_time s).rows ≡ [])
            × ((view locale_time s).none_found ≡ none))
  unfolding view rows_from
  view_regions s named = elim (Bool-cases s.loading) [
    | inl busy ↦ inr (inl busy, rw busy, rw busy)
    | inr idle ↦ elim (Option-cases s.error) [
      | inr (e, wrong) ↦ inr (inr (λ fine. cc), rw (idle, wrong), rw (idle, wrong))
      | inl fine ↦ elim (List-cases s.records) [
        | inl empty ↦ inl (idle, fine, inr (rw (idle, fine, empty, rows_from), λ e. ground arith))
        | inr (r, rs, full) ↦ inl (idle, fine, inl (λ e. ground arith, ground arith))
      ]
    ]
  ]
