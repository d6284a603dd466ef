-- ===== src/DetailPage/Verification.antt =====
-- Verifications among everything else that can happen to the page.
use forensic_chain.Common.{
  String, true, false, Option, none, some, ◌≡◌, refl, is_truthy, Option-cases, inl, inr,
}
use forensic_chain.Api.{Artifact, VerificationResult, Timeline}
use forensic_chain.Http.{Browser, Reply, resolved, rejected, status_of}
use forensic_chain.DetailPage.{
  State, init, artifact_settled, timeline_settled, download_started, download_settled,
  verify_started, verify_text, verify_settled, result_view, view,
}

-- How far the last verification has come.
pub data Stage : Type 0 where
  never : Stage
  running : Stage
  ended : Reply VerificationResult → Stage

download_keeps :
    (b : Browser) (s : State)
    → ((download_started b s).0.verify_result ≡ s.verify_result)
      × ((download_started b s).0.verify_error ≡ s.verify_error)
      × ((download_started b s).0.verifying ≡ s.verifying)
unfolding download_started
download_keeps b s = elim (Option-cases s.artifact) [
  | inl e ↦ rw e (refl, refl, refl)
  | inr (a, e) ↦ rw e (refl, refl, refl)
]

module _ (id : String) where
  -- What can happen to the page of `id`. The verify button is disabled while a verification runs,
  -- and a reply comes only to one that does.
  pub data Step (s : State) : Stage → Stage → State → Type 0 where
    artifact_came : {g : Stage} (r : Reply Artifact) → Step s g g (artifact_settled r s)
    timeline_came : {g : Stage} (r : Reply Timeline) → Step s g g (timeline_settled r s)
    download : {g : Stage} (b : Browser) → Step s g g (download_started b s).0
    downloaded : {g : Stage} (r : Reply (Unit {0})) → Step s g g (download_settled r s)
    choose : {g : Stage} (f : Option String) → Step s g g (record s { chosen = f })
    no_file :
        {g : Stage} (b : Browser)
        → s.verifying ≡ false
        → s.chosen ≡ none
        → Step s g g (verify_started id b s).0
    verify :
        {g : Stage} (b : Browser) (name : String)
        → s.verifying ≡ false
        → s.chosen ≡ some name
        → Step s g running (verify_started id b s).0
    verified : (r : Reply VerificationResult) → Step s running (ended r) (verify_settled r s)

  pub data Reach (s : State) : Stage → State → Type 0 where
    here : Reach s never s
    next : {g h : Stage} {t u : State} → Reach s g t → Step t g h u → Reach s h u

  -- What the page holds of the last verification.
  abbrev pub Holds : Stage → State → Type 0
  Holds never s = (s.verify_result ≡ none) × (s.verify_error ≡ none) × (s.verifying ≡ false)
  Holds running s = (s.verify_result ≡ none) × (s.verify_error ≡ none) × (s.verifying ≡ true)
  Holds (ended (resolved r)) s =
      (s.verify_result ≡ some r) × (s.verify_error ≡ none) × (s.verifying ≡ false)
  Holds (ended (rejected err)) s =
      (s.verify_result ≡ none)
      × (s.verify_error ≡ some (verify_text (status_of err)))
      × (s.verifying ≡ false)

  -- Two states with the same fields of the verification hold the same of it.
  Holds-cong :
      (g : Stage) (s t : State)
      → t.verify_result ≡ s.verify_result
      → t.verify_error ≡ s.verify_error
      → t.verifying ≡ s.verifying
      → Holds g s
      → Holds g t
  Holds-cong never s t e f v h = rw (e, f, v) h
  Holds-cong running s t e f v h = rw (e, f, v) h
  Holds-cong (ended (resolved r)) s t e f v h = rw (e, f, v) h
  Holds-cong (ended (rejected err)) s t e f v h = rw (e, f, v) h

  Step-Holds :
      is_truthy id ≡ true → {g h : Stage} {s t : State} → Step s g h t → Holds g s → Holds h t
  unfolding artifact_settled timeline_settled download_started download_settled verify_started
      verify_settled
  Step-Holds named {g = g} {s = s} (artifact_came (resolved a)) h =
      Holds-cong g s _ refl refl refl h
  Step-Holds named {g = g} {s = s} (artifact_came (rejected err)) h =
      Holds-cong g s _ refl refl refl h
  Step-Holds named {g = g} {s = s} (timeline_came (resolved a)) h =
      Holds-cong g s _ refl refl refl h
  Step-Holds named {g = g} {s = s} (timeline_came (rejected err)) h = h
  Step-Holds named {g = g} {s = s} (download b) h =
      let (e, f, v) = download_keeps b s in Holds-cong g s _ e f v h
  Step-Holds named {g = g} {s = s} (downloaded (resolved u)) h = Holds-cong g s _ refl refl refl h
  Step-Holds named {g = g} {s = s} (downloaded (rejected err)) h = Holds-cong g s _ refl refl refl h
  Step-Holds named {g = g} {s = s} (choose f) h = Holds-cong g s _ refl refl refl h
  Step-Holds named {g = g} {s = s} (no_file b idle empty) h =
      Holds-cong g s _ (rw empty) (rw empty) (rw empty) h
  Step-Holds named {s = s} (verify b name idle has) h = rw (has, named) (refl, refl, refl)
  Step-Holds named {s = s} (verified (resolved r)) (e, f, v) = (refl, f, refl)
  Step-Holds named {s = s} (verified (rejected err)) (e, f, v) = (e, refl, refl)

  Reach-Holds : is_truthy id ≡ true → {g : Stage} {s : State} → Reach init g s → Holds g s
  Reach-Holds named here = (refl, refl, refl)
  Reach-Holds named (next r st) = Step-Holds named st (Reach-Holds named r)

-- What the section on verification shows: whether its button is disabled, the error, the result.
abbrev pub Shows : (String → String) → Option String → Stage → State → Type 0
Shows locale_time role never s =
    ((view locale_time role s).verify_disabled ≡ false)
    × ((view locale_time role s).verify_error ≡ none)
    × ((view locale_time role s).verify_result ≡ none)
Shows locale_time role running s =
    ((view locale_time role s).verify_disabled ≡ true)
    × ((view locale_time role s).verify_error ≡ none)
    × ((view locale_time role s).verify_result ≡ none)
Shows locale_time role (ended (resolved r)) s =
    ((view locale_time role s).verify_disabled ≡ false)
    × ((view locale_time role s).verify_error ≡ none)
    × ((view locale_time role s).verify_result ≡ some (result_view locale_time r))
Shows locale_time role (ended (rejected err)) s =
    ((view locale_time role s).verify_disabled ≡ false)
    × ((view locale_time role s).verify_error ≡ some (verify_text (status_of err)))
    × ((view locale_time role s).verify_result ≡ none)

-- However loads, downloads, choices of a file and verifications interleave, the page of an artifact
-- shows the outcome of the last verification and of no other: its result alone when it succeeded, its
-- error alone when it failed, and neither while it runs or when there was none; the button is disabled
-- exactly while it runs.
pub Reach-Shows :
    (locale_time : String → String) (role : Option String) (id : String) (g : Stage) {s : State}
    → is_truthy id ≡ true
    → Reach id init g s
    → Shows locale_time role g s
unfolding view
Reach-Shows locale_time role id never {s} named r =
    let (e, f, v) = Reach-Holds id named r in (v, f, rw e)
Reach-Shows locale_time role id running {s} named r =
    let (e, f, v) = Reach-Holds id named r in (v, f, rw e)
Reach-Shows locale_time role id (ended (resolved x)) {s} named r =
    let (e, f, v) = Reach-Holds id named r in (v, f, rw e)
Reach-Shows locale_time role id (ended (rejected err)) {s} named r =
    let (e, f, v) = Reach-Holds id named r in (v, f, rw e)
