-- ===== src/Common/Texts.antt =====
-- Tests on the source's strings.
use Prim.Native.String.{String}
use mathlib.Core.Bool.{Bool, false, not}
use mathlib.Core.Option.{Option, none, some}
use text.Mathlib.Text.{◌==◌}
use text.Mathlib.TextEquality.{eq_iff}
use mathlib.Core.Path.{◌≡◌}
use mathlib.Core.Logic.{◌≢◌}

-- A string is falsy in a test when it is empty.
abbrev pub is_truthy : String → Bool
is_truthy s = not (s == "")

-- `if (x)` at `string | null`
abbrev pub is_present : Option String → Bool
is_present none = false
is_present (some s) = is_truthy s

-- `x === s` at `string | null`
abbrev pub is_text : Option String → String → Bool
is_text none s = false
is_text (some t) s = t == s

pub ne_of_test : (s t : String) → s == t ≡ false → s ≢ t
ne_of_test s t off e = cc (off, (eq_iff s t).1 e)
