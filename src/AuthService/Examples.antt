-- ===== src/AuthService/Examples.antt =====
-- Runs of the auth service with small stand-ins, and each theorem at a concrete input.
use Prim.Native.String.{◌++◌}
use forensic_chain.Common.{
  ℕ, String, Bool, true, false, none, some, List, [], ◌∷◌, ◌≡◌, refl, ap, sym, ◌∙◌, inl, inr, arith,
  find, contains, not, ◌&&◌, ◌==◌, ltb, Holds, if◌then◌else◌,
}
use forensic_chain.Python.{answered, http_error, and_then, raised}
use forensic_chain.Rbac.{is_let_through}
use forensic_chain.Admin.Cases.NewCase as Client
use forensic_chain.EvidenceCollector.Records as Evidence
use forensic_chain.EvidenceCollector.Upload as Upload
use forensic_chain.AuthService.Store.{User, Case, AuthDb}
use forensic_chain.AuthService.Admin.{
  Caller, Fresh, require_admin, matches, number_pattern, commit_with, update_case_status,
  with_status, checked_user, create_user,
}
use forensic_chain.AuthService.Sound.{IsSound}
use forensic_chain.AuthService.History.{
  Request, post_user, post_case, post_assignment, handle, handle_all, handle_all-IsSound,
}
use forensic_chain.AuthService.Closing.{assignments_of, close-refuses_upload}
use forensic_chain.AuthService.Login.{
  Externals, create_access_token, login, login_as, validate, validate-login, DecodesOwn, claims_of,
}

abbrev empty : AuthDb
empty = record { users = []; cases = []; assignments = [] }

empty-IsSound : IsSound empty
empty-IsSound = record {
  usernames = λ a b m n e. absurd m;
  numbers = λ a b m n e. absurd m;
  ids = λ a b m n e. absurd m;
  pairs = λ a b m n e. absurd m;
  cases_exist = λ a m. absurd m;
  roles = λ a m. absurd m;
}

abbrev admin : Caller
admin = record { role = some "admin"; username = some "admin01" }

abbrev drawn : String → Fresh
drawn id = record { id = id; now = 1 }

abbrev is_ascii_digit : ℕ → Bool
is_ascii_digit d = not (ltb d 48) && not (ltb 57 d)

abbrev requests : List (Caller × Request)
requests =
    (admin, post_user (drawn "u1") "ana" "pw" "investigator")
    ∷ (admin, post_case (drawn "k1") "CASE-2024-001" "Disk" none)
    ∷ (admin, post_assignment (drawn "a1") "k1" "ana" "investigator")
    ∷ []

handle_all-IsSound_example : IsSound (handle_all (λ p. p) is_ascii_digit empty requests)
unfolding find handle create_user checked_user commit_with and_then require_admin contains
handle_all-IsSound_example =
    handle_all-IsSound (λ p. p) is_ascii_digit requests empty (tt, (refl, (tt, tt))) empty-IsSound

-- A newline at the end of a number passes the service, and not the form of the client.
number_with_newline : matches is_ascii_digit number_pattern "CASE-2024-001\n" ≡ true
unfolding matches number_pattern
number_with_newline = refl

client_refuses_newline : Client.test Client.case_re "CASE-2024-001\n" ≡ false
unfolding Client.test Client.case_re
client_refuses_newline = refl

abbrev disk : Case
disk = record {
  id = "k1";
  case_number = "CASE-2024-001";
  title = "Disk";
  description = none;
  status = "OPEN";
  created_at = 1;
  created_by = "admin01";
}

abbrev one_case : AuthDb
one_case = record { users = []; cases = disk ∷ []; assignments = [] }

only_disk : (k : Case) → Holds k one_case.cases → k ≡ disk
only_disk k (inl e) = e
only_disk k (inr m) = absurd m

one_case-IsSound : IsSound one_case
one_case-IsSound = record {
  usernames = λ a b m n e. absurd m;
  numbers = λ a b m n e. ap (λ k. k.id) (only_disk a m ∙ sym (only_disk b n));
  ids = λ a b m n e. ap (λ k. k.case_number) (only_disk a m ∙ sym (only_disk b n));
  pairs = λ a b m n e. absurd m;
  cases_exist = λ a m. absurd m;
  roles = λ a m. absurd m;
}

abbrev uploader : Evidence.Caller
uploader = record { user_id = "ana"; user_role = "investigator" }

abbrev form : Upload.UploadForm
form = record {
  case_id = "CASE-2024-001";
  title = "Image";
  artifact_type = "disk_image";
  description = none;
  file_name = "d.img";
  file_size = 5;
}

abbrev surroundings : Upload.Surroundings
surroundings = record {
  artifact_id = 1;
  artifact_text = "one";
  storage_path = "/evidence-storage/one/original.bin";
  uploaded_at = 5;
  makedirs_fault = none;
  write_fault = none;
  save = Upload.saved;
  sign = raised "down";
  append_proof = raised "down";
  finish = Upload.saved;
  record_id = 3;
  mark_fault = none;
}

abbrev store : Upload.Store
store = record { db = record { artifacts = []; outbox = [] }; files = [] }

close-refuses_upload_example :
    Upload.upload_evidence
      (assignments_of (update_case_status admin one_case "k1" (some "CLOSED")).0)
      uploader
      form
      surroundings
      store
    ≡ (store, http_error 403 "Not assigned to this case or case is not open")
unfolding update_case_status require_admin and_then with_status find commit_with
close-refuses_upload_example =
    close-refuses_upload admin one_case "k1" (record disk { status = "CLOSED" }) uploader form
      surroundings store one_case-IsSound refl refl

abbrev ana : User
ana = record {
  id = "u1";
  username = "ana";
  hashed_password = "pw";
  role = "investigator";
  is_active = true;
  created_at = 1;
}

abbrev one_user : AuthDb
one_user = record { users = ana ∷ []; cases = []; assignments = [] }

-- A token is the name of its user, and every token is that of this user's login at the time 7.
abbrev toy : Externals
toy = record {
  checkpw = λ p h. p == h;
  encode = λ c. c.sub;
  decode = λ t s. some (record { sub = "ana"; role = "investigator"; iat = 7; exp = 28807 });
  upper = λ s. s;
}

decodes_ana : DecodesOwn toy 7 one_user
unfolding claims_of
decodes_ana u (inl e) t early =
    ap (λ (v : User). some (record { sub = v.username; role = v.role; iat = 7; exp = 28807 }))
      (sym e)
decodes_ana u (inr m) t early = absurd m

validate-login_example :
    (u : User) × Holds u one_user.users
    × (u.username ≡ "ana")
    × (u.is_active ≡ true)
    × (toy.checkpw "pw" u.hashed_password ≡ true)
    × (validate toy 100 (some ("Bearer " ++ "ana")) (some "/api/evidence") (some "GET") ≡ (
        if is_let_through u.role "GET" "/api/evidence"
        then answered ("ana", u.role)
        else http_error 403 "Forbidden"))
unfolding login login_as find create_access_token claims_of
validate-login_example =
    validate-login toy 7 100 one_user "ana" "pw" "ana" "/api/evidence" "GET" decodes_ana refl
      (omega arith) refl refl
