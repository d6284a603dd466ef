-- ===== src/DetailPage/Examples.antt =====
-- A verification on the page of an artifact.
use forensic_chain.Common.{false, some, ◌≡◌, refl}
use forensic_chain.Api.Examples.{artifact_of, verification_of}
use forensic_chain.Auth.Examples.{signed_in}
use forensic_chain.Search.Examples.{same_text}
use forensic_chain.Http.{resolved, rejected, axios_error}
use forensic_chain.DetailPage.{
  State, init, artifact_settled, timeline_settled, verify_started, verify_settled, verify_text,
}
use forensic_chain.DetailPage.Verification.{
  ended, here, next, artifact_came, timeline_came, choose, verify, verified, Shows, Reach-Shows,
}

-- The timeline is refused, and the artifact comes while the verification runs.
abbrev verified_page : State
verified_page = verify_settled (resolved (verification_of "VALID")) (
    artifact_settled (resolved (artifact_of "a1" "disk.img"))
      (verify_started "a1" (signed_in "investigator")
        (record (timeline_settled (rejected (axios_error (some 403) "no")) init) {
          chosen = some "f";
        })).0)

not_verifying : (timeline_settled (rejected (axios_error (some 403) "no")) init).verifying ≡ false
unfolding timeline_settled
not_verifying = refl

Reach-Shows_example :
    Shows same_text (some "investigator") (ended (resolved (verification_of "VALID"))) verified_page
Reach-Shows_example =
    Reach-Shows same_text (some "investigator") "a1" (ended (resolved (verification_of "VALID")))
      {s = verified_page} refl
      (next
        (next
          (next
            (next (next here (timeline_came (rejected (axios_error (some 403) "no"))))
              (choose (some "f")))
            (verify (signed_in "investigator") "f" not_verifying refl))
          (artifact_came (resolved (artifact_of "a1" "disk.img"))))
        (verified (resolved (verification_of "VALID"))))

gateway_down : verify_text (some 502) ≡ verify_text (some 503)
unfolding verify_text
gateway_down = refl
