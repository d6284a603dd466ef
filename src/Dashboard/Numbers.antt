-- ===== src/Dashboard/Numbers.antt =====
-- The numbers of the dashboard.
use forensic_chain.Common.{
  ℕ, suc, zero, ◌+◌, ◌≤◌, String, Bool, Option, some, List, [], ◌∷◌, ◌≡◌, refl, ◌⊎◌, inl, inr,
  arith, ltb, eqb, not, length, filter, take, All, Bool-cases, if◌then◌else◌, ◌&&◌, is_text,
}
use forensic_chain.Api.{Artifact, Case}
use forensic_chain.Dashboard.{
  State, artifacts_with, Stats, skeleton, for_admin, for_member, stats, case_rows, CaseList,
  none_found, listing, case_list, view,
}

-- A status that the type of an artifact names.
abbrev pub HasStatus : Artifact → Type 0
HasStatus a = (a.status ≡ "PENDING") ⊎ (a.status ≡ "INGESTED") ⊎ (a.status ≡ "INGESTION_FAILED")

counted :
    (artifacts : List Artifact)
    → All HasStatus artifacts
    → artifacts_with "INGESTED" artifacts
        + artifacts_with "PENDING" artifacts
        + artifacts_with "INGESTION_FAILED" artifacts
      ≡ length artifacts
unfolding artifacts_with filter
counted [] h = refl
counted (a ∷ rest) (inl e, h) = rw e (ground (arith, counted rest h))
counted (a ∷ rest) (inr (inl e), h) = rw e (ground (arith, counted rest h))
counted (a ∷ rest) (inr (inr e), h) = rw e (ground (arith, counted rest h))

-- The cards of a member add up: ingested, pending and failed artifacts are all artifacts.
abbrev pub AddsUp : Stats → Type 0
AddsUp (skeleton n) = Unit
AddsUp (for_admin total opened closed) = Unit
AddsUp (for_member cases artifacts ingested pending failed red) =
    (ingested + pending + failed ≡ artifacts) × (red ≡ ltb 0 failed)

-- When every artifact has one of the three statuses of its type, the numbers that the dashboard shows
-- of ingested, pending and failed artifacts add up to that of all artifacts, and the last one is red
-- exactly when it is positive.
pub stats-AddsUp :
    (locale_date : String → String) (role : Option String) (s : State)
    → All HasStatus s.artifacts
    → AddsUp (view locale_date role s).stats
unfolding view stats
stats-AddsUp locale_date role s h = elim (Bool-cases s.loading) [
  | inl busy ↦ rw busy tt
  | inr idle ↦ elim (Bool-cases (is_text role "admin")) [
    | inl is_admin ↦ rw (idle, is_admin) tt
    | inr member ↦ rw (idle, member) (counted s.artifacts h, refl)
  ]
]

-- How many rows the list shows and how many it leaves out.
abbrev pub shown : CaseList → ℕ
shown none_found = 0
shown (listing rows more) = length rows

abbrev pub left_out : CaseList → ℕ
left_out (listing rows (some n)) = n
left_out _ = 0

length-case_rows :
    (locale_date : String → String) (is_admin : Bool) (cs : List Case)
    → length (case_rows locale_date is_admin cs) ≡ length cs
unfolding case_rows
length-case_rows locale_date is_admin [] = refl
length-case_rows locale_date is_admin (c ∷ cs) =
    ground (arith, length-case_rows locale_date is_admin cs)

length-take :
    (n : ℕ) (cs : List Case) → length (take n cs) ≡ (if ltb n (length cs) then n else length cs)
unfolding take
length-take zero cs = ground arith
length-take (suc n) [] = ground arith
length-take (suc n) (c ∷ cs) = ground (arith, length-take n cs)

-- The list of cases accounts for every case: the rows that it shows, eight at most, and the number
-- that it gives of those left out make up all of them.
pub case_list-length :
    (locale_date : String → String) (role : Option String) (s : State)
    → let l = (view locale_date role s).cases in
      (shown l + left_out l ≡ length s.cases) × (shown l ≤ 8)
unfolding view case_list
case_list-length locale_date role s = elim (Bool-cases (not s.loading && eqb (length s.cases) 0)) [
  | inl empty ↦ rw empty (ground arith)
  | inr full ↦ elim (Bool-cases (ltb 8 (length s.cases))) [
    | inl long ↦
        rw (full, long)
          (rw (length-case_rows locale_date (is_text role "admin") (take 8 s.cases))
            (rw (length-take 8 s.cases) (rw long (ground arith))))
    | inr short ↦
        rw (full, short)
          (rw (length-case_rows locale_date (is_text role "admin") (take 8 s.cases))
            (rw (length-take 8 s.cases) (rw short (ground arith))))
  ]
]
