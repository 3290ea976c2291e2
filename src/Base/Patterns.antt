-- ===== src/Base/Patterns.antt =====
-- Regular expressions that are a sequence of repeated character classes between `^` and `$`, as
-- `regexp.MatchString` reads them.
use Prim.Native.Nat.{ℕ, ◌+◌}
use mathlib.Core.Bool.{Bool, true, false, ◌&&◌, ◌||◌}
use mathlib.Core.Option.{Option, none, some}
use mathlib.Core.List.{List, [], ◌∷◌}
use talepanel.Base.Tests.{◌==◌, leb, ltb}
use talepanel.Base.Strings.{Text}

-- A class of characters and how often it repeats: from `least` times, to `most` where there is a
-- bound.
pub record Piece : Type 0 where
  pub allowed : ℕ → Bool
  pub least : ℕ
  pub most : Option ℕ

abbrev pub below_most : Option ℕ → ℕ → Bool
below_most none n = true
below_most (some most) n = ltb n most

-- `n` characters of the piece are read; `rest` matches what follows it.
unfoldable pub matches_piece : Piece → (Text → Bool) → ℕ → Text → Bool
matches_piece piece rest n [] = leb piece.least n && rest []
matches_piece piece rest n (c ∷ s) =
    leb piece.least n && rest (c ∷ s)
    || below_most piece.most n && piece.allowed c && matches_piece piece rest (n + 1) s

unfoldable pub matches : List Piece → Text → Bool
unfolding matches_piece
matches [] [] = true
matches [] (c ∷ s) = false
matches (piece ∷ pieces) s = matches_piece piece (matches pieces) 0 s

abbrev pub is_digit : ℕ → Bool
is_digit c = leb b'0' c && leb c b'9'

abbrev pub is_letter : ℕ → Bool
is_letter c = leb b'a' c && leb c b'z' || leb b'A' c && leb c b'Z'

abbrev pub once : ℕ → Piece
once char = record { allowed = λ c. c == char; least = 1; most = some 1 }

abbrev pub at_least : ℕ → (ℕ → Bool) → Piece
at_least n allowed = record { allowed = allowed; least = n; most = none }

abbrev pub exactly : ℕ → (ℕ → Bool) → Piece
exactly n allowed = record { allowed = allowed; least = n; most = some n }
