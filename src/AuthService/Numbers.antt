-- ===== src/AuthService/Numbers.antt =====
-- The case numbers of the client's form, against those that the service takes.
use Prim.Native.Char.{code}
use forensic_chain.Common.{ℕ, ◌≤◌, String, Bool, true, List, [], ◌∷◌, ◌≡◌, refl, arith}
use forensic_chain.Admin.Cases.NewCase as Client
use forensic_chain.AuthService.Admin.{number_pattern, fits, matches}

module _ (is_decimal : ℕ → Bool) (ascii : (d : ℕ) → 48 ≤ d → d ≤ 57 → is_decimal d ≡ true) where
  fits-admits : (p : Client.Class) (d : ℕ) → Client.admits p d ≡ true → fits is_decimal p d ≡ true
  unfolding Client.admits fits
  fits-admits (Client.letter n) d e = ground (arith, e)
  fits-admits Client.digit d e = ascii d (ground (arith, e)) (ground (arith, e))

  matches-test :
      (ps : List Client.Class) (s : String)
      → Client.test ps s ≡ true
      → matches is_decimal ps s ≡ true
  unfolding Client.test matches
  matches-test [] String.[] e = refl
  matches-test [] (String.◌∷◌ c s) e = cc
  matches-test (p ∷ ps) String.[] e = cc
  matches-test (p ∷ ps) (String.◌∷◌ c s) e =
      let here : Client.admits p (code c) ≡ true = ground (arith, e) in
      let rest : Client.test ps s ≡ true = ground (arith, e) in
      ground (arith, fits-admits p (code c) here, matches-test ps s rest)

  -- A case number that the form of the client lets through matches the pattern of the service, when
  -- the ten ASCII digits are decimal.
  pub matches-case_re :
      (s : String)
      → Client.test Client.case_re s ≡ true
      → matches is_decimal number_pattern s ≡ true
  unfolding Client.case_re number_pattern
  matches-case_re s e = matches-test number_pattern s e
