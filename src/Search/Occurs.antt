-- ===== src/Search/Occurs.antt =====
-- `includes` against occurrence as a factor of the text.
use Prim.Native.String.{◌++◌}
use text.Mathlib.TextEquality.{Char-path}
use text.Mathlib.TextLemmas.{nil-append, cons-append}
use forensic_chain.Common.{
  String, true, ◌≡◌, refl, sym, ◌∙◌, ◌↔◌, inl, inr, arith, Bool-cases, subst,
}
use forensic_chain.Search.{is_prefix, includes}

-- `q` stands somewhere in `s`.
pub Occurs : String → String → Type 0
Occurs q s = (before : String) × (after : String) × (s ≡ before ++ (q ++ after))

is_prefix_sound : (q s : String) → is_prefix q s ≡ true → (after : String) × (s ≡ q ++ after)
unfolding is_prefix
is_prefix_sound String.[] s e = (s, sym (nil-append s))
is_prefix_sound (String.◌∷◌ d q) String.[] e = cc
is_prefix_sound (String.◌∷◌ d q) (String.◌∷◌ c s) e =
    let (after, rest) = is_prefix_sound q s (ground arith) in
    let same : c ≡ d = Char-path c d (ground arith) in (after, rw (cons-append, ← rest, same))

is_prefix-append : (q after : String) → is_prefix q (q ++ after) ≡ true
unfolding is_prefix
is_prefix-append String.[] after = refl
is_prefix-append (String.◌∷◌ d q) after =
    rw cons-append (rw (is_prefix-append q after) (ground arith))

includes_sound : (s q : String) → includes s q ≡ true → Occurs q s
unfolding includes Occurs
includes_sound String.[] q e =
    let (after, rest) = is_prefix_sound q "" e in ("", after, rest ∙ sym (nil-append (q ++ after)))
includes_sound (String.◌∷◌ c s) q e = elim (Bool-cases (is_prefix q (String.◌∷◌ c s))) [
  | inl here ↦
      let (after, rest) = is_prefix_sound q (String.◌∷◌ c s) here in
      ("", after, rest ∙ sym (nil-append (q ++ after)))
  | inr later ↦
      let (before, after, rest) = includes_sound s q (ground arith) in
      (String.◌∷◌ c before, after, rw (cons-append, ← rest))
]

includes-prefix : (s q : String) → is_prefix q s ≡ true → includes s q ≡ true
unfolding includes
includes-prefix String.[] q e = e
includes-prefix (String.◌∷◌ c s) q e = ground arith

includes-append : (before q after : String) → includes (before ++ (q ++ after)) q ≡ true
unfolding includes
includes-append String.[] q after =
    rw nil-append (includes-prefix (q ++ after) q (is_prefix-append q after))
includes-append (String.◌∷◌ c before) q after =
    rw cons-append (ground (arith, includes-append before q after))

-- `s.includes(q)` holds exactly when `q` stands somewhere in `s`.
pub includes_iff : (s q : String) → (includes s q ≡ true) ↔ Occurs q s
unfolding Occurs
includes_iff s q = (
  includes_sound s q,
  λ (before, after, e). subst (λ t. includes t q ≡ true) (sym e) (includes-append before q after),
)

pub includes-empty : (s : String) → includes s "" ≡ true
unfolding is_prefix
includes-empty s = includes-prefix s "" refl
