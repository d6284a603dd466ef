-- ===== src/Rbac/Downloads.antt =====
-- Downloads of evidence files, with and without a query.
use Prim.Native.Char.{Char, code}
use Prim.Native.String.{◌++◌ as concat}
use text.Mathlib.TextLemmas.{nil-append, cons-append, append_assoc, head-eq_of_cons-eq, cons-ne-nil}
use forensic_chain.Common.{
  ℕ, String, Bool, true, false, some, List, [], ◌∷◌, ◌≡◌, refl, sym, ap, ◌∙◌, arith, eqb, not, ◌&&◌,
  ◌||◌, contains, eq_iff, Bool-cases, inl, inr, ◌==◌, if◌then◌else◌,
}
use forensic_chain.Api.Endpoints
use forensic_chain.Rbac.{
  uploaders, members, Piece, lit, segment, slash, end, after, some_run, matches, decide,
  is_authorized,
}

after-append : (q s : String) → after q (concat q s) ≡ some s
unfolding after
after-append String.[] s = ap some (nil-append s)
after-append (String.◌∷◌ d q) s = rw cons-append (ground (arith, after-append q s))

-- A text of one part of a path.
abbrev pub no_slash : String → Bool
no_slash String.[] = true
no_slash (String.◌∷◌ c s) = not (eqb (code c) b'/') && no_slash s

-- A pattern that only a slash can start.
abbrev NeedsSlash : (String → Bool) → Type 0
NeedsSlash k = (c : Char) (s : String) → eqb (code c) b'/' ≡ false → k (String.◌∷◌ c s) ≡ false

or_false : (b : Bool) → (b || false) ≡ b
or_false true = refl
or_false false = refl

some_run-cons :
    (k : String → Bool) (c : Char) (u : String)
    → eqb (code c) b'/' ≡ false
    → some_run k (String.◌∷◌ c u) ≡ (k u || some_run k u)
unfolding some_run
some_run-cons k c u other = ground (arith, other)

some_run-slash : (k : String → Bool) (t : String) → some_run k (String.◌∷◌ "/" t) ≡ false
unfolding some_run
some_run-slash k t = refl

-- `[^/]+` takes all of a part of a path, when what stands after it starts with a slash.
some_run-part :
    (k : String → Bool) (c : Char) (id t : String)
    → NeedsSlash k
    → no_slash (String.◌∷◌ c id) ≡ true
    → some_run k (concat (String.◌∷◌ c id) (String.◌∷◌ "/" t)) ≡ k (String.◌∷◌ "/" t)
some_run-part k c String.[] t needs plain =
    ap (some_run k) (cons-append c "" (String.◌∷◌ "/" t))
    ∙ some_run-cons k c (concat "" (String.◌∷◌ "/" t)) (ground arith)
    ∙ ap (λ u. k u || some_run k u) (nil-append (String.◌∷◌ "/" t))
    ∙ ap (λ b. k (String.◌∷◌ "/" t) || b) (some_run-slash k t)
    ∙ or_false (k (String.◌∷◌ "/" t))
some_run-part k c (String.◌∷◌ d s) t needs plain =
    let missed : k (concat (String.◌∷◌ d s) (String.◌∷◌ "/" t)) ≡ false =
      ap k (cons-append d s (String.◌∷◌ "/" t))
      ∙ needs d (concat s (String.◌∷◌ "/" t)) (ground arith) in
    ap (some_run k) (cons-append c (String.◌∷◌ d s) (String.◌∷◌ "/" t))
    ∙ some_run-cons k c (concat (String.◌∷◌ d s) (String.◌∷◌ "/" t)) (ground arith)
    ∙ ap (λ b. b || some_run k (concat (String.◌∷◌ d s) (String.◌∷◌ "/" t))) missed
    ∙ some_run-part k d s t needs (ground arith)

matches-lit :
    (t : String) (ps : List Piece) (s : String) → matches (lit t ∷ ps) (concat t s) ≡ matches ps s
unfolding matches
matches-lit t ps s = rw (matches, after-append t s)

needs_slash : (ps : List Piece) → NeedsSlash (matches (lit "/download" ∷ ps))
unfolding matches after
needs_slash ps c s other = rw (matches, after, other)

abbrev download_pattern : List Piece
download_pattern = lit "/evidence/" ∷ segment ∷ lit "/download" ∷ slash ∷ end ∷ []

abbrev download_url : String → String → String
download_url id tail = concat "/evidence/" (concat id (concat "/download" tail))

matches-download_url :
    (c : Char) (id tail : String)
    → no_slash (String.◌∷◌ c id) ≡ true
    → matches download_pattern (download_url (String.◌∷◌ c id) tail)
      ≡ matches (slash ∷ end ∷ []) tail
unfolding matches
matches-download_url c id tail plain =
    let ps : List Piece = lit "/download" ∷ slash ∷ end ∷ [] in
    let text : concat "/download" tail ≡ String.◌∷◌ "/" (concat "download" tail) =
      cons-append "/" "download" tail in
    matches-lit "/evidence/" (segment ∷ ps) (concat (String.◌∷◌ c id) (concat "/download" tail))
    ∙ ap (λ u. some_run (matches ps) (concat (String.◌∷◌ c id) u)) text
    ∙ some_run-part (matches ps) c id (concat "download" tail) (needs_slash (slash ∷ end ∷ []))
        plain
    ∙ ap (matches ps) (sym text)
    ∙ matches-lit "/download" (slash ∷ end ∷ []) tail

matches-query : (query : String) → matches (slash ∷ end ∷ []) (concat "?" query) ≡ false
unfolding matches after
matches-query query =
    let text : concat "?" query ≡ String.◌∷◌ "?" (concat "" query) = cons-append "?" "" query in
    rw text (elim (Bool-cases (String.◌∷◌ "?" (concat "" query) == "")) [
      | inl blank ↦ absurd (cons-ne-nil "?" (concat "" query) ((eq_iff _ _).0 blank))
      | inr full ↦ elim (Bool-cases (String.◌∷◌ "?" (concat "" query) == "\n")) [
        | inl line ↦ absurd (no_line (ap code (head-eq_of_cons-eq ((eq_iff _ "\n").0 line))))
        | inr other ↦ rw (matches, full, other)
      ]
    ])
  where
    no_line : ◌≡◌ {A = ℕ} 63 10 → ⊥
    no_line e = omega arith

matches-evidence : (x : String) → matches (lit "/evidence" ∷ []) (concat "/evidence/" x) ≡ true
unfolding matches
matches-evidence x =
    ap (matches (lit "/evidence" ∷ [])) (append_assoc "/evidence" "/" x)
    ∙ matches-lit "/evidence" [] (concat "/" x)

decide_download :
    (role x : String)
    → is_authorized role "GET" (concat "/evidence/" x) ≡ (
        if matches download_pattern (concat "/evidence/" x)
        then contains uploaders role
        else contains members role)
unfolding is_authorized decide
decide_download role x = rw (matches-evidence x)

-- The rules guard the download of an evidence file only as long as its location has no query. For an
-- artifact whose identifier is a part of a path, the request of the client is let through exactly for
-- investigators and analysts; the same location with any query after it is let through for every role
-- that may read the metadata, legal reviewers with them.
pub download_with_query :
    (role : String) (c : Char) (id query : String)
    → no_slash (String.◌∷◌ c id) ≡ true
    → let url = (Endpoints.download_artifact (String.◌∷◌ c id)).url in
      (is_authorized role "GET" url ≡ contains uploaders role)
      × (is_authorized role "GET" (concat url (concat "?" query)) ≡ contains members role)
unfolding matches after
download_with_query role c id query plain =
    let part : String = String.◌∷◌ c id in
    let split : concat (concat "/evidence/" (concat part "/download")) (concat "?" query)
        ≡ download_url part (concat "?" query) =
      append_assoc "/evidence/" (concat part "/download") (concat "?" query)
      ∙ ap (λ u. concat "/evidence/" u) (append_assoc part "/download" (concat "?" query)) in
    (
      decide_download role (concat part "/download")
          ∙ ap (λ b. if b then contains uploaders role else contains members role)
              (matches-download_url c id "" plain),
      ap (is_authorized role "GET") split
          ∙ decide_download role (concat part (concat "/download" (concat "?" query)))
          ∙ ap (λ b. if b then contains uploaders role else contains members role)
              (matches-download_url c id (concat "?" query) plain ∙ matches-query query),
    )
