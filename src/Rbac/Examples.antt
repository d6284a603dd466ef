-- ===== src/Rbac/Examples.antt =====
-- Locations that the rules admit and refuse.
use forensic_chain.Common.{true, false, ◌≡◌, refl, contains}
use Prim.Native.String.{◌++◌ as concat}
use forensic_chain.Api.Endpoints
use forensic_chain.Rbac.{
  uploaders, members, after, some_run, matches, decide, is_authorized, is_let_through,
}
use forensic_chain.Rbac.Downloads.{download_with_query}

locations :
    (is_let_through "legal_reviewer" "GET" "/api/evidence/a1/download" ≡ false)
    × (is_let_through "legal_reviewer" "GET" "/api/evidence/a1/download?x" ≡ true)
    × (is_let_through "forensic_analyst" "GET" "/api/evidence/a1/download/" ≡ true)
    × (is_let_through "investigator" "POST" "/api/evidence/a1/verify" ≡ true)
    × (is_let_through "investigator" "POST" "/api/evidence//verify" ≡ false)
    × (is_let_through "admin" "GET" "/api/evidence" ≡ false)
    × (is_let_through "admin" "PATCH" "/api/admin/cases/c1" ≡ true)
    × (is_let_through "investigator" "GET" "/api/custody/a1/timeline" ≡ false)
unfolding is_let_through is_authorized decide matches after some_run contains
locations = (refl, refl, refl, refl, refl, refl, refl, refl)

download_with_query_example :
    (is_authorized "legal_reviewer" "GET" (Endpoints.download_artifact "a1").url
      ≡ contains uploaders "legal_reviewer")
    × (is_authorized "legal_reviewer" "GET"
          (concat (Endpoints.download_artifact "a1").url (concat "?" "x"))
        ≡ contains members "legal_reviewer")
download_with_query_example = download_with_query "legal_reviewer" "a" "1" "x" refl
