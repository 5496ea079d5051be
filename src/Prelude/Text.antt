-- ===== src/Prelude/Text.antt =====
-- Texts by value, and Go's maps with text keys as association lists.
use Prim.Native.Nat.{ℕ}
use Prim.Native.Char.{code}
use Prim.Native.String.{String}
use mathlib.Core.Bool.{Bool, true, false, ◌||◌}
use mathlib.Core.Option.{Option, none, some}
use mathlib.Core.List.{List, [], ◌∷◌}
use text.Mathlib.Text.{◌==◌}
use maintenance_orchestrator.Prelude.Tests.{if◌then◌else◌}
use maintenance_orchestrator.Prelude.Tests

abbrev pub str_eq : String → String → Bool
str_eq s t = s == t

-- `s == ""`
abbrev pub is_empty : String → Bool
is_empty String.[] = true
is_empty (String.◌∷◌ c s) = false

module _ {ℓ} {V : Type ℓ} where
  -- `v, ok := m[k]`
  abbrev pub lookup : String → List (String × V) → Option V
  lookup k [] = none
  lookup k ((j, v) ∷ m) = if str_eq j k then some v else lookup k m

  -- `_, ok := m[k]`
  abbrev pub has_key : String → List (String × V) → Bool
  has_key k [] = false
  has_key k ((j, v) ∷ m) = str_eq j k || has_key k m

-- `m[k]` of a map into texts: "" where the key is missing.
abbrev pub lookup_text : String → List (String × String) → String
lookup_text k [] = ""
lookup_text k ((j, v) ∷ m) = if str_eq j k then v else lookup_text k m

-- `set.Has(k)`
abbrev pub has : String → List String → Bool
has k [] = false
has k (j ∷ m) = str_eq j k || has k m

-- The text before the first separator, and the text behind it.
unfoldable pub cut : ℕ → String → Option (String × String)
cut sep String.[] = none
cut sep (String.◌∷◌ c s) =
    if Tests.◌==◌ (code c) sep
    then some ("", s)
    else elim (cut sep s) [ none ↦ none | some (before, after) ↦ some (String.◌∷◌ c before, after) ]
