-- ===== src/ImmutableLedger/Tampering.antt =====
-- What a validated chain fixes, and what it leaves open.
use Prim.Native.String.{◌++◌, count}
use text.Mathlib.TextLemmas.{append_inj}
use forensic_chain.Common.{
  String, true, Option, none, some, List, [], ◌∷◌, map, ◌≡◌, ◌≢◌, refl, sym, ◌∙◌, ap, ◌⊎◌, inl, inr,
  arith, eq_iff, Bool-cases, ◌==◌, ne_of_test, subst, Holds,
}
use forensic_chain.ImmutableLedger.Hashing.{
  Externals, compute_payload_hash, compute_record_hash, data_to_hash,
}
use forensic_chain.ImmutableLedger.Records.{LedgerRecord}
use forensic_chain.ImmutableLedger.Reversed.{rev_onto, map-rev_onto_inj, Holds-turned}
use forensic_chain.ImmutableLedger.Chain.{Seals, IsChain, tip, validate_loop-IsChain}
use forensic_chain.ImmutableLedger.Validation.{validate_loop}

-- The last record hash of a chain that is read from its end.
top : List LedgerRecord → Option String
top [] = none
top (r ∷ rs) = some r.record_hash

module _ (x : Externals) where
  -- The text of the payload, as it is hashed.
  abbrev pub payload_text : LedgerRecord → String
  payload_text r = x.dumps r.raw_payload

  -- The two texts that the record is hashed from.
  abbrev pub Hashes : String → LedgerRecord → Type 0
  Hashes a r = (a ≡ payload_text r) ⊎ (a ≡ data_to_hash x r.payload_hash r.previous_record_hash)

  -- Two texts of one digest, one that a record of `rs` is hashed from and one that a record of `qs`
  -- is hashed from.
  abbrev pub Collision : List LedgerRecord → List LedgerRecord → Type 0
  Collision rs qs =
      (r : LedgerRecord) × (q : LedgerRecord) × (a : String) × (b : String) × Holds r rs
      × Holds q qs
      × Hashes a r
      × Hashes b q
      × (a ≢ b)
      × (x.sha256 a ≡ x.sha256 b)

  -- A chain, read from its end.
  abbrev IsBackward : List LedgerRecord → Type 0
  IsBackward [] = Unit
  IsBackward (r ∷ rs) = Seals x (top rs) r × IsBackward rs

  rev_onto-IsBackward :
      (rs acc : List LedgerRecord)
      → IsBackward acc
      → IsChain x (top acc) rs
      → IsBackward (rev_onto rs acc) × (top (rev_onto rs acc) ≡ tip x (top acc) rs)
  unfolding rev_onto top
  rev_onto-IsBackward [] acc b h = (b, refl)
  rev_onto-IsBackward (r ∷ rs) acc b h = rev_onto-IsBackward rs (r ∷ acc) (h.0, b) h.1

  Collision-within :
      (rs qs rs' qs' : List LedgerRecord)
      → ((r : LedgerRecord) → Holds r rs → Holds r rs')
      → ((q : LedgerRecord) → Holds q qs → Holds q qs')
      → Collision rs qs
      → Collision rs' qs'
  Collision-within rs qs rs' qs' f g (r, q, a, b, m, n, h, k, differ, same) =
      (r, q, a, b, f r m, g q n, h, k, differ, same)

  -- Digests have one length, as those of SHA-256 in hexadecimal have.
  module _ (digest_length : (s : String) → count (x.sha256 s) ≡ 64) where
    suffix_of : Option String → String
    suffix_of none = "GENESIS"
    suffix_of (some h) = h

    IsDigest : Option String → Type 0
    IsDigest none = Unit
    IsDigest (some h) = count h ≡ 64

    top-IsDigest : (rs : List LedgerRecord) → IsBackward rs → IsDigest (top rs)
    unfolding top Seals compute_record_hash IsDigest
    top-IsDigest [] b = tt
    top-IsDigest (r ∷ rs) b = subst (λ h. count h ≡ 64) (sym b.0.2) (digest_length _)

    payload_hash_digest :
        (r : LedgerRecord) (previous : Option String)
        → Seals x previous r
        → count r.payload_hash ≡ 64
    unfolding Seals compute_payload_hash
    payload_hash_digest r previous h = subst (λ t. count t ≡ 64) (sym h.1) (digest_length _)

    data_to_hash-eq :
        (a : String) (t : Option String) → IsDigest t → data_to_hash x a t ≡ a ++ suffix_of t
    unfolding data_to_hash IsDigest suffix_of
    data_to_hash-eq a none d = refl
    data_to_hash-eq a (some h) d = elim (Bool-cases (h == "")) [
      | inl e ↦ absurd (omega (arith, sym d ∙ ap count ((eq_iff h "").0 e)))
      | inr e ↦ rw e refl
    ]

    suffix_inj : (t u : Option String) → IsDigest t → IsDigest u → suffix_of t ≡ suffix_of u → t ≡ u
    unfolding suffix_of IsDigest
    suffix_inj none none d e s = refl
    suffix_inj none (some h) d e s = absurd (omega (arith, ap count s, e))
    suffix_inj (some h) none d e s = absurd (omega (arith, ap count s, d))
    suffix_inj (some h) (some k) d e s = ap some s

    data_inj :
        (a b : String) (t u : Option String)
        → count a ≡ count b
        → IsDigest t
        → IsDigest u
        → data_to_hash x a t ≡ data_to_hash x b u
        → (a ≡ b) × (t ≡ u)
    data_inj a b t u n d e same =
        let (heads, tails) =
          append_inj (sym (data_to_hash-eq a t d) ∙ same ∙ data_to_hash-eq b u e) n in
        (heads, suffix_inj t u d e tails)

    -- Two texts of one digest, of two records, are the same text, or a collision.
    sha256_inj :
        (r q : LedgerRecord) (rs qs : List LedgerRecord) (a b : String)
        → Hashes a r
        → Hashes b q
        → x.sha256 a ≡ x.sha256 b
        → (a ≡ b) ⊎ Collision (r ∷ rs) (q ∷ qs)
    sha256_inj r q rs qs a b h k e = elim (Bool-cases (a == b)) [
      | inl t ↦ inl ((eq_iff a b).0 t)
      | inr f ↦ inr (r, q, a, b, inl refl, inl refl, h, k, ne_of_test a b f, e)
    ]

    -- The text that the hash of a record is made from.
    hashed_data :
        (r : LedgerRecord) (t : Option String)
        → Seals x t r
        → Hashes (data_to_hash x r.payload_hash t) r
    unfolding Seals
    hashed_data r t h = inr (ap (data_to_hash x r.payload_hash) (sym h.0))

    -- Records of one record hash have one payload and one predecessor.
    seal_inj :
        (r q : LedgerRecord) (rs qs : List LedgerRecord) (t u : Option String)
        → Seals x t r
        → Seals x u q
        → IsDigest t
        → IsDigest u
        → r.record_hash ≡ q.record_hash
        → ((payload_text r ≡ payload_text q) × (t ≡ u)) ⊎ Collision (r ∷ rs) (q ∷ qs)
    unfolding Seals compute_record_hash compute_payload_hash
    seal_inj r q rs qs t u h k d e same =
        elim (sha256_inj r q rs qs _ _ (hashed_data r t h) (hashed_data q u k)
          (sym h.2 ∙ same ∙ k.2)) [
            | inr c ↦ inr c
            | inl one ↦
                let n = payload_hash_digest r t h ∙ sym (payload_hash_digest q u k) in
                let (payloads, tops) = data_inj r.payload_hash q.payload_hash t u n d e one in
                elim (sha256_inj r q rs qs _ _ (inl refl) (inl refl) (sym h.1 ∙ payloads ∙ k.1)) [
                  | inr c ↦ inr c
                  | inl texts ↦ inl (texts, tops)
                ]
          ]

    backward_unique :
        (rs qs : List LedgerRecord)
        → IsBackward rs
        → IsBackward qs
        → top rs ≡ top qs
        → (map payload_text rs ≡ map payload_text qs) ⊎ Collision rs qs
    unfolding top
    backward_unique [] [] b c e = inl refl
    backward_unique [] (q ∷ qs) b c e = cc
    backward_unique (r ∷ rs) [] b c e = cc
    backward_unique (r ∷ rs) (q ∷ qs) b c e =
        elim (seal_inj r q rs qs (top rs) (top qs) b.0 c.0 (top-IsDigest rs b.1)
          (top-IsDigest qs c.1) (ground (arith, e))) [
            | inr k ↦ inr k
            | inl (texts, tops) ↦ elim (backward_unique rs qs b.1 c.1 tops) [
              | inr k ↦
                  inr (Collision-within rs qs (r ∷ rs) (q ∷ qs) (λ r m. inr m) (λ q m. inr m) k)
              | inl more ↦ inl (ground (arith, texts, more))
            ]
          ]

    -- Two chains with one last record hash hold the same payloads in the same order, or
    -- a collision among the texts that they are hashed from is at hand.
    pub chain_unique :
        (rs qs : List LedgerRecord)
        → IsChain x none rs
        → IsChain x none qs
        → tip x none rs ≡ tip x none qs
        → (map payload_text rs ≡ map payload_text qs) ⊎ Collision rs qs
    unfolding top
    chain_unique rs qs h k e =
        let (b, s) = rev_onto-IsBackward rs [] tt h in
        let (c, t) = rev_onto-IsBackward qs [] tt k in
        elim (backward_unique _ _ b c (s ∙ e ∙ sym t)) [
          | inr found ↦ inr (
              Collision-within _ _ rs qs (λ r m. Holds-turned r rs m) (λ q m. Holds-turned q qs m)
                found)
          | inl same ↦ inl (map-rev_onto_inj payload_text rs qs same)
        ]

    -- Two lists of records that the loop of the validation accepts, and that end in one record
    -- hash, hold the same payloads in the same order; or two texts are at hand that differ and have
    -- one digest, one that a record of the first list is hashed from and one of the second. Digests
    -- have 64 characters.
    pub validated_unique :
        (rs qs : List LedgerRecord)
        → (validate_loop x none 0 rs).chain_valid ≡ true
        → (validate_loop x none 0 qs).chain_valid ≡ true
        → tip x none rs ≡ tip x none qs
        → (map payload_text rs ≡ map payload_text qs) ⊎ Collision rs qs
    validated_unique rs qs h k =
        chain_unique rs qs (validate_loop-IsChain x none 0 rs h)
          (validate_loop-IsChain x none 0 qs k)
