-- ===== src/Base/Strings.antt =====
-- Text that the program walks: a list of code points, with Go's `strings` functions on it.
use Prim.Native.Char.{Char, code}
use Prim.Native.String.{String}
use Prim.Native.Nat.{ℕ, ◌+◌}
use mathlib.Core.Path.{◌≡◌, refl}
use mathlib.Core.Bool.{Bool, true, false, ◌&&◌, ◌||◌}
use mathlib.Core.List.{List, [], ◌∷◌, ◌++◌}
use native.Mathlib.Omega.{arith}
use talepanel.Base.Tests.{◌==◌, leb, ltb, if◌then◌else◌}

abbrev pub Text : Type 0
Text = List ℕ

abbrev pub codes : String → Text
codes String.[] = []
codes (String.◌∷◌ c s) = code c ∷ codes s

-- Equality of texts.
abbrev pub text_eq : Text → Text → Bool
text_eq [] [] = true
text_eq [] (_ ∷ _) = false
text_eq (_ ∷ _) [] = false
text_eq (a ∷ s) (b ∷ t) = a == b && text_eq s t

pub text_eq→eq : (s t : Text) → text_eq s t ≡ true → s ≡ t
text_eq→eq [] [] h = refl
text_eq→eq [] (b ∷ t) h = ground arith
text_eq→eq (a ∷ s) [] h = ground arith
text_eq→eq (a ∷ s) (b ∷ t) h = ground (arith, text_eq→eq s t)

pub text_eq_refl : (s : Text) → text_eq s s ≡ true
text_eq_refl [] = refl
text_eq_refl (a ∷ s) = ground (arith, text_eq_refl s)

-- `unicode.IsSpace`
unfoldable pub is_space : ℕ → Bool
is_space c =
    leb 9 c && leb c 13
    || c == 32
    || c == 0x85
    || c == 0xA0
    || c == 0x1680
    || leb 0x2000 c && leb c 0x200A
    || c == 0x2028
    || c == 0x2029
    || c == 0x202F
    || c == 0x205F
    || c == 0x3000

-- A word that has ended, if it is not empty, before the words after it.
abbrev flush : Text → List Text → List Text
flush [] rest = rest
flush (c ∷ cur) rest = (c ∷ cur) ∷ rest

unfoldable pub fields_from : Text → Text → List Text
fields_from cur [] = flush cur []
fields_from cur (c ∷ s) = elim (is_space c) [
  | true ↦ flush cur (fields_from [] s)
  | false ↦ fields_from (cur ++ c ∷ []) s
]

-- `strings.Fields`
unfoldable pub fields : Text → List Text
unfolding fields_from is_space
fields s = fields_from [] s

-- `strings.TrimSpace` drops the white space at both ends.
trim_left : String → String
trim_left String.[] = String.[]
trim_left (String.◌∷◌ c s) = if is_space (code c) then trim_left s else String.◌∷◌ c s

trimmed_cons : Char → String → String
trimmed_cons c String.[] = if is_space (code c) then String.[] else String.◌∷◌ c String.[]
trimmed_cons c (String.◌∷◌ d s) = String.◌∷◌ c (String.◌∷◌ d s)

trim_right : String → String
trim_right String.[] = String.[]
trim_right (String.◌∷◌ c s) = trimmed_cons c (trim_right s)

unfoldable pub trim_space : String → String
unfolding trim_left trim_right trimmed_cons is_space
trim_space s = trim_right (trim_left s)

-- The tables of the package `unicode` that the program uses: the lower and the upper case of a character,
-- and whether two characters are the same under simple case folding.
pub record Unicode : Type 0 where
  pub lower : Char → Char
  pub upper : Char → Char
  pub same_fold : Char → Char → Bool

module _ (unicode : Unicode) where
  -- `strings.ToLower`
  unfoldable pub to_lower_string : String → String
  to_lower_string String.[] = String.[]
  to_lower_string (String.◌∷◌ c s) = String.◌∷◌ (unicode.lower c) (to_lower_string s)

  -- `strings.EqualFold`
  unfoldable pub equal_fold : String → String → Bool
  equal_fold String.[] String.[] = true
  equal_fold String.[] (String.◌∷◌ d t) = false
  equal_fold (String.◌∷◌ c s) String.[] = false
  equal_fold (String.◌∷◌ c s) (String.◌∷◌ d t) = unicode.same_fold c d && equal_fold s t

-- The tables cut down to ASCII digits and lower-case letters, where they change nothing.
abbrev pub plain_unicode : Unicode
plain_unicode = record { lower = λ c. c; upper = λ c. c; same_fold = λ c d. code c == code d }

-- `strings.Split` at one character.
unfoldable pub split_from : ℕ → Text → Text → List Text
split_from sep cur [] = cur ∷ []
split_from sep cur (c ∷ s) = elim (c == sep) [
  | true ↦ cur ∷ split_from sep [] s
  | false ↦ split_from sep (cur ++ c ∷ []) s
]

unfoldable pub split : Text → ℕ → List Text
unfolding split_from
split s sep = split_from sep [] s

-- `unicode.ToLower`; `other` is its table beyond ASCII.
abbrev pub to_lower : (ℕ → ℕ) → ℕ → ℕ
to_lower other c = if ltb c 128 then (if leb b'A' c && leb c b'Z' then c + 32 else c) else other c
