-- ===== src/LedgerPage.antt =====
-- forensic-ui/src/pages/LedgerPage.tsx: its state, its two effects, the case selector, and what it
-- renders. `in_flight` records the cases whose requests have not settled; the page itself keeps no
-- such record.
pub mod Races
pub mod Calm
pub mod Stale
pub mod Rendering
pub mod Examples
use Prim.Native.String.{◌++◌ as concat}
use forensic_chain.Common.{
  ℕ, zero, suc, String, Bool, true, false, Option, none, some, List, [], ◌∷◌, ◌++◌, if◌then◌else◌,
  eqb, not, ◌&&◌, ◌==◌, is_truthy, is_some, is_present, length, find, or_else,
}
use forensic_chain.Api.{Case, LedgerRecord, LedgerValidation}
use forensic_chain.Http.{Reply, resolved, rejected}
use forensic_chain.Format.{short_hash, short_id, show_nat}

pub record State : Type 0 where
  pub cases : List Case
  pub selected : String
  pub records : List LedgerRecord
  pub validation : Option LedgerValidation
  pub loading : Bool
  pub error : Option String
  pub in_flight : List String

abbrev pub init : State
init = record {
  cases = [];
  selected = "";
  records = [];
  validation = none;
  loading = false;
  error = none;
  in_flight = [];
}

-- What `Promise.all` of the two calls gives for one case.
abbrev pub LedgerData : Type 0
LedgerData = List LedgerRecord × LedgerValidation

-- The effect on `selectedCase`.
unfoldable pub start_load : State → State
start_load s =
    if is_truthy s.selected
    then record s {
      loading = true;
      error = none;
      records = [];
      validation = none;
      in_flight = s.in_flight ++ s.selected ∷ [];
    }
    else s

-- `setSelectedCase`: the effect runs again only when the value is another one.
unfoldable pub select : String → State → State
unfolding start_load
select c s = if s.selected == c then s else start_load (record s { selected = c })

-- The first effect, once the list of cases has settled.
unfoldable pub cases_settled : Reply (List Case) → State → State
unfolding select
cases_settled (resolved []) s = record s { cases = [] }
cases_settled (resolved (c ∷ cs)) s = select c.case_number (record s { cases = c ∷ cs })
cases_settled (rejected err) s = record s { error = some "Could not load cases." }

-- `.then(…).catch(…).finally(…)` of the second effect.
unfoldable pub ledger_settled : Reply LedgerData → State → State
ledger_settled (resolved (recs, val)) s = record s {
  records = recs;
  validation = some val;
  loading = false;
}
ledger_settled (rejected err) s = record s {
  error = some "Failed to load ledger data.";
  loading = false;
}

pub data RecordBadge : Type 0 where
  proof verification report : RecordBadge
  unknown : String → RecordBadge

-- `RECORD_TYPE_LABELS` with the default of `RecordTypeBadge`.
unfoldable pub record_badge : String → RecordBadge
record_badge type =
    if type == "EVIDENCE_PROOF_CREATED"
    then proof
    else if type == "VERIFICATION_RESULT_RECORDED"
    then verification
    else if type == "REPORT_PROOF_CREATED"
    then report
    else unknown type

pub record Row : Type 0 where
  pub number : ℕ
  pub badge : RecordBadge
  pub genesis : Bool
  pub artifact : String
  pub hash : String
  pub previous : String
  pub timestamp : String

pub record Banner : Type 0 where
  pub intact : Bool
  pub headline : String
  pub detail : Option String
  pub case_line : Option String

pub record LedgerView : Type 0 where
  pub options : List (String × String)
  pub banner : Option Banner
  pub busy : Bool
  pub error : Option String
  pub rows : List Row
  pub none_found : Option String

module _ (locale_time : String → String) where
  row : ℕ → LedgerRecord → Row
  row number r = record {
    number = number;
    badge = record_badge r.record_type;
    genesis = not (is_some r.previous_record_hash);
    artifact = short_id r.artifact_id;
    hash = short_hash (some r.record_hash);
    previous = if is_present r.previous_record_hash then short_hash r.previous_record_hash else "—";
    timestamp = locale_time r.created_at;
  }

  unfoldable pub rows_from : ℕ → List LedgerRecord → List Row
  unfolding row
  rows_from n [] = []
  rows_from n (r ∷ rs) = row (suc n) r ∷ rows_from (suc n) rs

abbrev case_text : Case → String
case_text c = concat c.case_number (concat " — " c.title)

unfoldable pub banner_of : List Case → String → LedgerValidation → Banner
banner_of cases selected v = record {
  intact = v.chain_valid;
  headline =
      if v.chain_valid
      then concat "Chain Intact — " (
          concat (show_nat v.checked_records)
            (concat " record" (concat (if eqb v.checked_records 1 then "" else "s") " verified")))
      else "Chain Integrity Failure";
  detail = if not v.chain_valid && is_truthy v.error_message then some v.error_message else none;
  case_line = elim (find (λ c. c.case_number == selected) cases) [
    | none ↦ none
    | some c ↦ some (case_text c)
  ];
}

abbrev case_options : List Case → List (String × String)
case_options [] = []
case_options (c ∷ cs) = (c.case_number, case_text c) ∷ case_options cs

unfoldable pub view : (String → String) → State → LedgerView
unfolding banner_of rows_from
view locale_time s = record {
  options = case_options s.cases;
  banner = elim s.validation [ none ↦ none | some v ↦ some (banner_of s.cases s.selected v) ];
  busy = s.loading;
  error = s.error;
  rows = if not s.loading && not (is_some s.error) then rows_from locale_time 0 s.records else [];
  none_found =
      if not s.loading && not (is_some s.error) && eqb (length s.records) 0 && is_truthy s.selected
      then some (concat "No ledger records found for " (concat s.selected "."))
      else none;
}
