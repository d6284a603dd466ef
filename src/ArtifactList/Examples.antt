-- ===== src/ArtifactList/Examples.antt =====
-- The list of two artifacts, searched.
use forensic_chain.Common.{none, some, ◌≡◌, refl}
use forensic_chain.Http.{rejected, other}
use forensic_chain.Search.Examples.{same_text}
use forensic_chain.ArtifactList.{init, load_settled, view}

-- With the load failed, the table says beside the error that there are no artifacts.
error_beside_empty :
    (view same_text same_text none (load_settled (rejected other) init)).error
    ≡ some "Failed to load artifacts. Please try again."
unfolding view load_settled
error_beside_empty = refl
