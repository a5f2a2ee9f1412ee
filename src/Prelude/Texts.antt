-- ===== src/Prelude/Texts.antt =====
-- Texts as the source tests them: `===`, and the truth value of a string that may be absent.
use Prim.Native.String.{String}
use mathlib.Core.Bool.{Bool, false, ◌||◌}
use mathlib.Core.Option.{Option, none, some}
use mathlib.Core.List.{List, [], ◌∷◌}
pub use text.Mathlib.Text.{◌==◌}
use comm_care.Prelude.Tests.{if◌then◌else◌}

-- The value of an optional text where the source tests it for truth: `null`, `undefined` and the
-- empty text are false.
abbrev pub present : Option String → Option String
present none = none
present (some s) = if s == "" then none else some s

-- `a === b` between an optional text and a text
abbrev pub holds_text : Option String → String → Bool
holds_text none t = false
holds_text (some s) t = s == t

-- `xs.includes(x)`
abbrev pub includes : List String → String → Bool
includes [] x = false
includes (y ∷ ys) x = y == x || includes ys x
