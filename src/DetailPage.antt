-- ===== src/DetailPage.antt =====
-- forensic-ui/src/pages/ArtifactDetailPage.tsx: its state, the two loads of its effect, the download
-- and the verify handler, each split where it waits, and what it renders.
pub mod Verification
pub mod Access
pub mod Examples
use Prim.Native.String.{◌++◌ as concat}
use forensic_chain.Common.{
  ℕ, String, Bool, true, false, Option, none, some, List, [], ◌∷◌, if◌then◌else◌, ◌==◌, ◌||◌, not,
  is_truthy, is_present, is_text, or_else, eqb,
}
use forensic_chain.Api.{Artifact, VerificationResult, Timeline, CustodyEvent}
use forensic_chain.Api.Endpoints
use forensic_chain.Http.{
  Browser, HttpRequest, Reply, resolved, rejected, Failure, status_of, is_status, message_or,
  on_request,
}
use forensic_chain.Format.{show_nat, Tone, status_tone, short_time}

pub record State : Type 0 where
  pub artifact : Option Artifact
  pub timeline : Option Timeline
  pub fetch_error : Option String
  pub verify_result : Option VerificationResult
  pub verify_error : Option String
  pub verifying : Bool
  pub downloading : Bool
  pub download_error : Option String
  pub chosen : Option String

abbrev pub init : State
init = record {
  artifact = none;
  timeline = none;
  fetch_error = none;
  verify_result = none;
  verify_error = none;
  verifying = false;
  downloading = false;
  download_error = none;
  chosen = none;
}

-- The two loads of the effect settle on their own; a failure to load the timeline is ignored.
unfoldable pub artifact_settled : Reply Artifact → State → State
artifact_settled (resolved a) s = record s { artifact = some a }
artifact_settled (rejected err) s = record s {
  fetch_error = some (message_or err "Failed to load artifact");
}

unfoldable pub timeline_settled : Reply Timeline → State → State
timeline_settled (resolved t) s = record s { timeline = some t }
timeline_settled (rejected err) s = s

-- `handleDownload`
unfoldable pub download_started : Browser → State → State × Option HttpRequest
download_started b s = elim s.artifact [
  | none ↦ (s, none)
  | some a ↦ (
    record s { downloading = true; download_error = none },
    some (on_request b (Endpoints.download_artifact a.artifact_id)),
  )
]

unfoldable pub download_settled : Reply (Unit {0}) → State → State
download_settled (resolved _) s = record s { downloading = false }
download_settled (rejected err) s = record s {
  download_error = some "Download failed. Please try again.";
  downloading = false;
}

-- `handleVerify` up to its `await`; `id` is the parameter of the route.
unfoldable pub verify_started : String → Browser → State → State × Option HttpRequest
verify_started id b s = elim s.chosen [
  | none ↦ (s, none)
  | some name ↦
      if is_truthy id
      then (
        record s { verifying = true; verify_error = none; verify_result = none },
        some (on_request b (Endpoints.verify_artifact id name)),
      )
      else (s, none)
]

-- The text of the `catch` clause.
unfoldable pub verify_text : Option ℕ → String
verify_text status =
    if is_status status 503 || is_status status 502
    then "One or more verification services are temporarily unavailable. Please try again in a moment."
    else if is_status status 500
    then "An error occurred during verification. Please try again."
    else if is_status status 400
    then "Invalid request. Please make sure you selected the correct file."
    else if is_status status 404
    then "Artifact not found."
    else "Verification failed. Please try again."

-- `handleVerify` from its `await` on.
unfoldable pub verify_settled : Reply VerificationResult → State → State
verify_settled (resolved result) s = record s { verify_result = some result; verifying = false }
verify_settled (rejected err) s = record s {
  verify_error = some (verify_text (status_of err));
  verifying = false;
}

abbrev yes_no : Bool → String
yes_no b = if b then "Yes" else "No"

-- The section with the result of a verification.
pub record ResultView : Type 0 where
  pub status : String
  pub tone : Tone
  pub fields : List (String × String)

unfoldable pub result_view : (String → String) → VerificationResult → ResultView
result_view locale_time r = record {
  status = r.verification_result;
  tone = status_tone r.verification_result;
  fields =
      ("Original Hash", r.original_hash)
      ∷ ("Current Hash", r.current_hash)
      ∷ ("Signature Valid", yes_no r.signature_valid)
      ∷ ("Ledger Chain Valid", yes_no r.ledger_chain_valid)
      ∷ ("Verified At", locale_time r.verified_at)
      ∷ [];
}

-- The metadata.
unfoldable pub metadata : Artifact → List (String × String)
metadata a =
    ("Case ID", a.case_id)
    ∷ ("File", a.file_name)
    ∷ ("Type", a.artifact_type)
    ∷ ("Size", concat (show_nat a.file_size) " B")
    ∷ ("Hash algo", or_else a.hash_algorithm "—")
    ∷ ("Uploaded by", or_else a.uploaded_by "—")
    ∷ ("Uploaded", short_time a.uploaded_at)
    ∷ []

pub record EventView : Type 0 where
  pub event_type : String
  pub time : String
  pub actor : String
  pub reason : Option String

pub record TimelineView : Type 0 where
  pub heading : String
  pub valid : Bool
  pub events : List EventView

event_views : (String → String) → List CustodyEvent → List EventView
event_views locale_time [] = []
event_views locale_time (ev ∷ evs) =
    record {
      event_type = ev.event_type;
      time = locale_time ev.timestamp;
      actor = concat ev.actor_id (concat " · " ev.actor_role);
      reason = if is_present ev.reason then ev.reason else none;
    }
    ∷ event_views locale_time evs

unfoldable pub timeline_view : (String → String) → Timeline → TimelineView
unfolding event_views
timeline_view locale_time t = record {
  heading =
      concat (show_nat t.total_events) (concat " event" (if eqb t.total_events 1 then "" else "s"));
  valid = t.chain_valid;
  events = event_views locale_time t.events;
}

pub record DetailView : Type 0 where
  pub fetch_error : Option String
  pub metadata : Option (String × List (String × String))
  pub report_link : Bool
  pub download_button : Bool
  pub download_disabled : Bool
  pub download_error : Option String
  pub verify_disabled : Bool
  pub verify_error : Option String
  pub verify_result : Option ResultView
  pub timeline : Option TimelineView

-- The parts that stand inside the metadata section are there only with it.
unfoldable pub view : (String → String) → Option String → State → DetailView
unfolding result_view metadata timeline_view
view locale_time role s = record {
  fetch_error = if is_present s.fetch_error then s.fetch_error else none;
  metadata = elim s.artifact [ none ↦ none | some a ↦ some (a.status, metadata a) ];
  report_link = elim s.artifact [ none ↦ false | some a ↦ is_text role "legal_reviewer" ];
  download_button = elim s.artifact [ none ↦ false | some a ↦ is_text role "forensic_analyst" ];
  download_disabled = s.downloading;
  download_error = elim s.artifact [ none ↦ none | some a ↦ s.download_error ];
  verify_disabled = s.verifying;
  verify_error = s.verify_error;
  verify_result = elim s.verify_result [ none ↦ none | some r ↦ some (result_view locale_time r) ];
  timeline = elim s.timeline [ none ↦ none | some t ↦ some (timeline_view locale_time t) ];
}
