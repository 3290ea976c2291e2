-- ===== src/Base/Maps.antt =====
-- Go's `map[string]bool` as an association list: a write replaces or adds, a missing key reads
-- `false`.
use Prim.Native.String.{String}
use mathlib.Core.Path.{◌≡◌}
use mathlib.Core.Bool.{Bool, false}
use mathlib.Core.Option.{Option, none, some}
use mathlib.Core.List.{List, [], ◌∷◌}
use native.Mathlib.Omega.{arith}
use text.Mathlib.Text.{◌==◌ as str_eq}
use text.Mathlib.TextEquality.{eq_iff}
use talepanel.Base.Tests.{if◌then◌else◌}

abbrev pub BoolMap : Type 0
BoolMap = List (String × Bool)

-- `value, ok := entries[name]`
unfoldable pub lookup : String → BoolMap → Option Bool
lookup name [] = none
lookup name ((entry, value) ∷ entries) =
    if str_eq entry name then some value else lookup name entries

-- `entries[name] = value`
unfoldable pub insert : String → Bool → BoolMap → BoolMap
insert name value [] = (name, value) ∷ []
insert name value ((entry, was) ∷ entries) =
    if str_eq entry name then (entry, value) ∷ entries else (entry, was) ∷ insert name value entries

abbrev pub or_false : Option Bool → Bool
or_false none = false
or_false (some b) = b

-- `entries[name]`
abbrev pub at_key : BoolMap → String → Bool
at_key entries name = or_false (lookup name entries)

pub lookup-insert :
    (written name : String) (value : Bool) (entries : BoolMap)
    → lookup name (insert written value entries)
      ≡ (if str_eq written name then some value else lookup name entries)
unfolding lookup insert
lookup-insert written name value [] = ground arith
lookup-insert written name value ((entry, was) ∷ entries) =
    let behind = lookup-insert written name value entries in
    ground (arith, behind, eq_iff entry written, eq_iff written name, eq_iff entry name)
