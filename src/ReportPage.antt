-- ===== src/ReportPage.antt =====
-- forensic-ui/src/pages/ReportPage.tsx: its state, the effect and the three handlers, each split
-- where it waits for a reply, and what it renders.
pub mod History
pub mod Rendering
pub mod Examples
use Prim.Native.String.{◌++◌ as concat}
use forensic_chain.Common.{
  ℕ, zero, suc, String, Bool, true, false, Option, none, some, List, [], ◌∷◌, if◌then◌else◌, eqb,
  not, is_truthy, is_some, is_present, is_text, length, lookup, insert,
}
use forensic_chain.Api.{Report, ReportVerification}
use forensic_chain.Http.{Reply, resolved, rejected, message_or}

pub record State : Type 0 where
  pub reports : List Report
  pub loading : Bool
  pub generating : Bool
  pub downloading_id : Option String
  pub verifying_id : Option String
  pub verifications : List (String × ReportVerification)
  pub error : Option String

abbrev pub init : State
init = record {
  reports = [];
  loading = true;
  generating = false;
  downloading_id = none;
  verifying_id = none;
  verifications = [];
  error = none;
}

-- The effect, once the list of the artifact's reports has settled.
unfoldable pub load_settled : Reply (List Report) → State → State
load_settled (resolved reports) s = record s { reports = reports; loading = false }
load_settled (rejected err) s = record s {
  error = some (message_or err "Failed to load reports");
  loading = false;
}

-- `handleGenerate`, up to and from its `await`.
unfoldable pub generate_started : String → State → State
generate_started artifact_id s =
    if is_truthy artifact_id then record s { generating = true; error = none } else s

unfoldable pub generate_settled : Reply Report → State → State
generate_settled (resolved r) s = record s { reports = r ∷ s.reports; generating = false }
generate_settled (rejected err) s = record s {
  error = some (message_or err "Report generation failed");
  generating = false;
}

-- `handleDownload`
unfoldable pub download_started : String → State → State
download_started report_id s = record s { downloading_id = some report_id }

unfoldable pub download_settled : Reply (Unit {0}) → State → State
download_settled (resolved _) s = record s { downloading_id = none }
download_settled (rejected err) s = record s {
  error = some (message_or err "Download failed");
  downloading_id = none;
}

-- `handleVerify`
unfoldable pub verify_started : String → State → State
verify_started report_id s = record s { verifying_id = some report_id }

unfoldable pub verify_settled : String → Reply ReportVerification → State → State
verify_settled report_id (resolved v) s = record s {
  verifications = insert report_id v s.verifications;
  verifying_id = none;
}
verify_settled report_id (rejected err) s = record s {
  error = some (message_or err "Verification failed");
  verifying_id = none;
}

-- The panel under a report that was verified.
pub record Panel : Type 0 where
  pub valid : Bool
  pub stored_hash : String
  pub current_hash : String
  pub verified_at : String

pub record Row : Type 0 where
  pub latest : Bool
  pub report_id : String
  pub generated : String
  pub by : String
  pub format : String
  pub verify_disabled : Bool
  pub download_disabled : Bool
  pub panel : Option Panel

pub data Listing : Type 0 where
  skeleton : ℕ → Listing
  none_yet : Listing
  listing : ℕ → List Row → Listing

pub record ReportView : Type 0 where
  pub back : String
  pub generate_disabled : Bool
  pub error : Option String
  pub listing : Listing

abbrev panel_for : (String → String) → Option ReportVerification → Option Panel
panel_for locale_time none = none
panel_for locale_time (some v) = some (record {
  valid = v.report_valid;
  stored_hash = v.stored_hash;
  current_hash = v.current_hash;
  verified_at = locale_time v.verified_at;
})

module _ (locale_time : String → String) (s : State) where
  -- The panel of `verifications[report_id]`, if any.
  unfoldable pub panel_of : String → Option Panel
  panel_of report_id = panel_for locale_time (lookup report_id s.verifications)

  row : ℕ → Report → Row
  unfolding panel_of
  row idx r = record {
    latest = eqb idx 0;
    report_id = r.report_id;
    generated = locale_time r.generated_at;
    by = r.generated_by;
    format = r.format;
    verify_disabled = is_text s.verifying_id r.report_id;
    download_disabled = is_text s.downloading_id r.report_id;
    panel = panel_of r.report_id;
  }

  unfoldable pub rows_from : ℕ → List Report → List Row
  unfolding row
  rows_from idx [] = []
  rows_from idx (r ∷ rs) = row idx r ∷ rows_from (suc idx) rs

  unfoldable pub list_reports : List Report → Listing
  unfolding rows_from
  list_reports [] = none_yet
  list_reports (r ∷ rs) = listing (length (r ∷ rs)) (rows_from 0 (r ∷ rs))

  unfoldable pub view : String → ReportView
  unfolding list_reports
  view artifact_id = record {
    back = concat "/artifacts/" artifact_id;
    generate_disabled = s.generating;
    error = if is_present s.error then s.error else none;
    listing = if s.loading then skeleton 3 else list_reports s.reports;
  }
