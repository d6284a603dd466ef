-- ===== src/ImmutableLedger/Chain.antt =====
-- What the validation of a chain accepts, against a description of a chain that computes nothing.
use forensic_chain.Common.{
  ℕ, suc, ◌+◌, String, true, Option, none, some, List, [], ◌∷◌, ◌++◌, length, ◌≡◌, refl, ◌∙◌, ap,
  ◌↔◌, ◌⊎◌, inl, inr, arith, eq_iff, Option-cases,
}
use forensic_chain.Python.{same_option_iff}
use forensic_chain.ImmutableLedger.Hashing.{Externals, compute_payload_hash, compute_record_hash}
use forensic_chain.ImmutableLedger.Records.{LedgerRecord, ValidateLedgerResponse}
use forensic_chain.ImmutableLedger.Validation.{record_error, validate_loop, valid, invalid}

module _ (x : Externals) where
  -- A record that follows the record hash `previous` holds the hashes of its payload and of the two.
  unfoldable pub Seals : Option String → LedgerRecord → Type 0
  Seals previous r =
      (r.previous_record_hash ≡ previous)
      × (r.payload_hash ≡ compute_payload_hash x r.raw_payload)
      × (r.record_hash ≡ compute_record_hash x r.payload_hash previous)

  -- Every record seals the one before it; the first seals `previous`.
  abbrev pub IsChain : Option String → List LedgerRecord → Type 0
  IsChain previous [] = Unit
  IsChain previous (r ∷ rs) = Seals previous r × IsChain (some r.record_hash) rs

  -- The record hash at the end of a chain that starts after `previous`.
  abbrev pub tip : Option String → List LedgerRecord → Option String
  tip previous [] = previous
  tip previous (r ∷ rs) = tip (some r.record_hash) rs

  pub record_error_iff :
      (previous : Option String) (r : LedgerRecord)
      → (record_error x previous r ≡ none) ↔ Seals previous r
  unfolding record_error Seals
  record_error_iff previous r =
      let ours = compute_payload_hash x r.raw_payload in
      let linked = same_option_iff r.previous_record_hash previous in
      let payload = eq_iff ours r.payload_hash in
      let hashed = eq_iff (compute_record_hash x ours r.previous_record_hash) r.record_hash in
      (λ e. ground (arith, linked, payload, hashed), λ h. ground (arith, linked, payload, hashed))

  -- The first record that fails, after a chain of `done`.
  abbrev pub BreaksAt : Option String → List LedgerRecord → List LedgerRecord → Type 0
  BreaksAt previous rs done =
      (bad : LedgerRecord) × (rest : List LedgerRecord) × (rs ≡ done ++ bad ∷ rest)
      × IsChain previous done
      × ¬ Seals (tip previous done) bad

  -- The response of the loop tells which of the two holds.
  abbrev pub Verdict : Option String → ℕ → List LedgerRecord → ValidateLedgerResponse → Type 0
  Verdict previous n rs response =
      (IsChain previous rs × (response ≡ valid (n + length rs)))
      ⊎ ((done : List LedgerRecord) × (message : String) × BreaksAt previous rs done
          × (response ≡ invalid (n + length done) message))

  Verdict-cons :
      (previous : Option String) (n : ℕ) (r : LedgerRecord) (rs : List LedgerRecord)
      (response : ValidateLedgerResponse)
      → Seals previous r
      → Verdict (some r.record_hash) (suc n) rs response
      → Verdict previous n (r ∷ rs) response
  Verdict-cons previous n r rs response sealed (inl (chain, e)) =
      inl ((sealed, chain), e ∙ ap valid (omega arith))
  Verdict-cons previous n r rs response sealed (inr (done, message, b, e)) = inr (
    r ∷ done,
    message,
    (b.0, b.1, ap (◌∷◌ r) b.2, (sealed, b.3), b.4),
    e ∙ ap (λ k. invalid k message) (omega arith),
  )

  -- The response of the loop is true to the records, and counts those before the first that fails.
  pub validate_loop-Verdict :
      (previous : Option String) (n : ℕ) (rs : List LedgerRecord)
      → Verdict previous n rs (validate_loop x previous n rs)
  unfolding validate_loop
  validate_loop-Verdict previous n [] = inl (tt, ap valid (omega arith))
  validate_loop-Verdict previous n (r ∷ rs) = elim (Option-cases (record_error x previous r)) [
    | inl ok ↦
        rw (validate_loop, ok)
          (Verdict-cons previous n r rs _ ((record_error_iff previous r).0 ok)
            (validate_loop-Verdict (some r.record_hash) (suc n) rs))
    | inr (message, e) ↦
        rw (validate_loop, e)
          (inr (
            [],
            message,
            (r, rs, refl, tt, λ sealed. cc (e, (record_error_iff previous r).1 sealed)),
            ap (λ k. invalid k message) (omega arith),
          ))
  ]

  -- A chain is found valid, with the number of its records.
  pub validate_loop_of_IsChain :
      (previous : Option String) (n : ℕ) (rs : List LedgerRecord)
      → IsChain previous rs
      → validate_loop x previous n rs ≡ valid (n + length rs)
  unfolding validate_loop
  validate_loop_of_IsChain previous n [] h = ap valid (omega arith)
  validate_loop_of_IsChain previous n (r ∷ rs) h =
      rw (validate_loop, (record_error_iff previous r).1 h.0)
        (validate_loop_of_IsChain (some r.record_hash) (suc n) rs h.1 ∙ ap valid (omega arith))

  -- What is found valid is a chain.
  pub validate_loop-IsChain :
      (previous : Option String) (n : ℕ) (rs : List LedgerRecord)
      → (validate_loop x previous n rs).chain_valid ≡ true
      → IsChain previous rs
  validate_loop-IsChain previous n rs h = elim (validate_loop-Verdict previous n rs) [
    | inl (chain, e) ↦ chain
    | inr (done, message, b, e) ↦ absurd (cc (h, ap (λ v. v.chain_valid) e))
  ]

  pub IsChain-snoc :
      (previous : Option String) (rs : List LedgerRecord) (r : LedgerRecord)
      → IsChain previous rs
      → Seals (tip previous rs) r
      → IsChain previous (rs ++ r ∷ [])
  IsChain-snoc previous [] r h sealed = (sealed, tt)
  IsChain-snoc previous (y ∷ rs) r h sealed =
      (h.0, IsChain-snoc (some y.record_hash) rs r h.1 sealed)

pub tip-snoc :
    (x : Externals) (previous : Option String) (rs : List LedgerRecord) (r : LedgerRecord)
    → tip x previous (rs ++ r ∷ []) ≡ some r.record_hash
tip-snoc x previous [] r = refl
tip-snoc x previous (y ∷ rs) r = tip-snoc x (some y.record_hash) rs r
