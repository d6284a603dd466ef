-- ===== src/EvidenceCollector/Visibility.antt =====
-- What a caller finds in the list, against what he may open.
use forensic_chain.Common.{
  String, true, false, none, ◌≡◌, refl, ◌↔◌, arith, Holds, Holds-filter, Holds-sort_by, filter,
  ◌==◌,
}
use forensic_chain.Python.{answered, AssignmentsFetch}
use forensic_chain.EvidenceCollector.Records.{Artifact, EvidenceDb, Caller}
use forensic_chain.EvidenceCollector.Access.{
  newer, is_visible, is_asked, query, require_reader, require_viewer,
}

module _ (auth : String → AssignmentsFetch) where
  is_visible_iff :
      (c : Caller) (a : Artifact)
      → c.user_role == "admin" ≡ false
      → (require_viewer auth c a ≡ answered tt) ↔ (is_visible auth c a ≡ true)
  unfolding require_viewer require_reader is_visible
  is_visible_iff c a off = (λ e. ground (arith, e, off), λ e. ground (arith, e, off))

  -- A caller who is no admin may open a stored artifact exactly when it is in his list of all cases.
  pub viewable-eq-listed :
      (c : Caller) (db : EvidenceDb) (a : Artifact)
      → c.user_role == "admin" ≡ false
      → Holds a db.artifacts
      → (require_viewer auth c a ≡ answered tt) ↔ Holds a (query auth c none db)
  unfolding query is_asked
  viewable-eq-listed c db a off held =
      let visible = filter (is_visible auth c) db.artifacts in
      (
        (λ e. (Holds-sort_by newer a (filter (is_asked none) visible)).1 (
            (Holds-filter (is_asked none) visible a).1 (
              (Holds-filter (is_visible auth c) db.artifacts a).1
                  (held, (is_visible_iff c a off).0 e),
              refl,
            ))),
        (λ m.
            (is_visible_iff c a off).1
              ((Holds-filter (is_visible auth c) db.artifacts a).0
                ((Holds-filter (is_asked none) visible a).0
                  ((Holds-sort_by newer a (filter (is_asked none) visible)).0 m)).0).1),
      )
