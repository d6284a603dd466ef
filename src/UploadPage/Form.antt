-- ===== src/UploadPage/Form.antt =====
-- What the form can hold, and so what an upload can send.
use forensic_chain.Common.{
  String, Bool, true, false, Option, none, some, List, [], ◌∷◌, ◌≡◌, refl, ◌⊎◌, inl, inr,
  Option-cases, is_truthy, Holds, All-at, find, lookup,
}
use forensic_chain.Api.{Artifact, Case}
use forensic_chain.Api.Endpoints
use forensic_chain.Http.{Browser, Field, text, file, Reply, resolved, rejected, on_request}
use forensic_chain.UploadPage.{
  State, init, artifact_types, type_label, guide_from, type_guide, cases_settled, reset_form,
  form_data, submit_started, submit_settled,
}

abbrev pub numbers : List Case → List String
numbers [] = []
numbers (c ∷ cs) = c.case_number ∷ numbers cs

-- What the browser lets the user submit: the two required fields are filled in, the form is there,
-- and its button is not disabled.
pub record CanSubmit (s : State) : Type 0 where
  pub has_case : is_truthy s.case_id ≡ true
  pub has_title : is_truthy s.title ≡ true
  pub no_result : s.result ≡ none
  pub idle : s.loading ≡ false

-- What can happen on the page. The case selector is disabled until the list is there, and offers its
-- cases and the blank option; the type selector offers the types.
pub data Step (s : State) : State → Type 0 where
  listed : (r : Reply (List Case)) → s.cases_loading ≡ true → Step s (cases_settled r s)
  pick_case :
      (c : String)
      → s.cases_loading ≡ false
      → (c ≡ "") ⊎ Holds c (numbers s.cases)
      → Step s (record s { case_id = c })
  type_title : (t : String) → Step s (record s { title = t })
  pick_type : (t : String) → Holds t artifact_types → Step s (record s { artifact_type = t })
  describe : (d : String) → Step s (record s { description = d })
  choose : (f : Option String) → Step s (record s { chosen = f })
  submit : (b : Browser) → CanSubmit s → Step s (submit_started b s).0
  settle : (r : Reply Artifact) → Step s (submit_settled r s)
  again : Step s (reset_form s)

pub data Reach (s : State) : State → Type 0 where
  here : Reach s s
  next : {t u : State} → Reach s t → Step t u → Reach s u

pub record IsFormed (s : State) : Type 0 where
  pub waiting : s.cases_loading ≡ true → s.case_id ≡ ""
  pub offered : (s.case_id ≡ "") ⊎ Holds s.case_id (numbers s.cases)
  pub known : Holds s.artifact_type artifact_types

submit_started-IsFormed : (b : Browser) (s : State) → IsFormed s → IsFormed (submit_started b s).0
unfolding submit_started
submit_started-IsFormed b s h = elim (Option-cases s.chosen) [
  | inl e ↦ rw e (record { waiting = h.waiting; offered = h.offered; known = h.known })
  | inr (name, e) ↦ rw e (record { waiting = h.waiting; offered = h.offered; known = h.known })
]

Step-IsFormed : {s t : State} → Step s t → IsFormed s → IsFormed t
unfolding cases_settled submit_started submit_settled reset_form
Step-IsFormed {s} (listed (resolved cases) w) h = record {
  waiting = λ e. cc;
  offered = inl (h.waiting w);
  known = h.known;
}
Step-IsFormed {s} (listed (rejected err) w) h = record {
  waiting = λ e. cc;
  offered = h.offered;
  known = h.known;
}
Step-IsFormed {s} (pick_case c w m) h = record { waiting = λ e. cc; offered = m; known = h.known }
Step-IsFormed {s} (type_title t) h = record {
  waiting = h.waiting;
  offered = h.offered;
  known = h.known;
}
Step-IsFormed {s} (pick_type t m) h = record { waiting = h.waiting; offered = h.offered; known = m }
Step-IsFormed {s} (describe d) h = record {
  waiting = h.waiting;
  offered = h.offered;
  known = h.known;
}
Step-IsFormed {s} (choose f) h = record {
  waiting = h.waiting;
  offered = h.offered;
  known = h.known;
}
Step-IsFormed {s} (submit b can) h = submit_started-IsFormed b s h
Step-IsFormed {s} (settle (resolved a)) h = record {
  waiting = h.waiting;
  offered = h.offered;
  known = h.known;
}
Step-IsFormed {s} (settle (rejected err)) h = record {
  waiting = h.waiting;
  offered = h.offered;
  known = h.known;
}
Step-IsFormed {s} again h = record { waiting = λ e. refl; offered = inl refl; known = inl refl }

Reach-IsFormed : {s : State} → Reach init s → IsFormed s
Reach-IsFormed here = record { waiting = λ e. refl; offered = inl refl; known = inl refl }
Reach-IsFormed (next r st) = Step-IsFormed st (Reach-IsFormed r)

-- A FormData that the ingestion service can take: the chosen file, the number of a case that the
-- server listed, a title, and one of the known types.
pub record IsUpload (name : String) (cases : List Case) (parts : List (String × Field))
    : Type 0 where
  pub case_id : String
  pub title : String
  pub artifact_type : String
  pub sends_file : lookup "file" parts ≡ some (file name)
  pub sends_case : lookup "case_id" parts ≡ some (text case_id)
  pub sends_title : lookup "title" parts ≡ some (text title)
  pub sends_type : lookup "artifact_type" parts ≡ some (text artifact_type)
  pub case_listed : Holds case_id (numbers cases)
  pub title_filled : is_truthy title ≡ true
  pub type_known : Holds artifact_type artifact_types

-- Whatever the user did before, a submission that the browser lets through with a file chosen sends
-- one upload, and its form names that file, a case that the server listed, a title that is not empty,
-- and a known artifact type.
pub submit_sends-IsUpload :
    {s : State} (b : Browser) (name : String)
    → Reach init s
    → CanSubmit s
    → s.chosen ≡ some name
    → (parts : List (String × Field)) × ((submit_started b s).1
        ≡ some (on_request b (Endpoints.upload_artifact parts)))
      × IsUpload name s.cases parts
unfolding submit_started form_data lookup
submit_sends-IsUpload {s} b name r can has =
    let formed = Reach-IsFormed r in
    (
      form_data name s,
      rw has,
      record {
        case_id = s.case_id;
        title = s.title;
        artifact_type = s.artifact_type;
        sends_file = refl;
        sends_case = refl;
        sends_title = refl;
        sends_type = refl;
        case_listed = elim formed.offered [
          | inl blank ↦ absurd (cc (rw blank at can.has_case))
          | inr m ↦ m
        ];
        title_filled = can.has_title;
        type_known = formed.known;
      },
    )

-- The labels of the guide that are highlighted.
abbrev pub highlighted : List (String × Bool) → List String
highlighted [] = []
highlighted ((label, true) ∷ g) = label ∷ highlighted g
highlighted ((label, false) ∷ g) = highlighted g

-- Whatever the user did, the guide highlights exactly one entry: the one whose label is the text of
-- the type selector.
pub highlighted-type_guide :
    {s : State}
    → Reach init s
    → highlighted (type_guide s.artifact_type) ≡ type_label s.artifact_type ∷ []
unfolding guide_from type_label find
highlighted-type_guide {s} r =
    All-at (λ t. highlighted (type_guide t) ≡ type_label t ∷ []) artifact_types s.artifact_type
      (refl, (refl, (refl, (refl, (refl, (refl, tt)))))) (Reach-IsFormed r).known
