-- ===== src/Requests/Action.antt =====
-- middleware/audit.go: the names under which AuditLog records a request, on code points.
use talepanel.Base.{
  ℕ, Bool, true, false, not, ◌&&◌, ◌||◌, ◌==◌, List, [], ◌∷◌, ◌++◌, ltb, leb, select, map, Text,
  codes, split, to_lower, if◌then◌else◌,
}
use talepanel.Address.Filename.{strip_slashes}

-- What the package `unicode` says beyond ASCII, and whether uuid.Parse takes a segment.
pub record Segments : Type 0 where
  pub is_uuid : Text → Bool
  pub is_word : ℕ → Bool
  pub lower : ℕ → ℕ

-- `strings.TrimPrefix`
abbrev pub trim_prefix_from : Text → Text → Text → Text
trim_prefix_from whole [] rest = rest
trim_prefix_from whole (p ∷ prefix) [] = whole
trim_prefix_from whole (p ∷ prefix) (c ∷ s) =
    let rest = trim_prefix_from whole prefix s in if p == c then rest else whole

abbrev pub trim_prefix : Text → Text → Text
trim_prefix s prefix = trim_prefix_from s prefix s

-- `multiSlash.ReplaceAllString(path, "/")`; the flag says that a slash stands before.
unfoldable pub one_slash : Bool → Text → Text
one_slash before [] = []
one_slash before (c ∷ s) =
    let inside = one_slash true s in
    let outside = one_slash false s in
    if c == b'/' then (if before then inside else c ∷ inside) else c ∷ outside

unfoldable pub drop_slashes : Text → Text
drop_slashes [] = []
drop_slashes (c ∷ s) = let rest = drop_slashes s in if c == b'/' then rest else c ∷ s

-- `strings.Trim(path, "/")`
abbrev pub trim_slashes : Text → Text
trim_slashes s = strip_slashes (drop_slashes s)

abbrev pub is_filled : Text → Bool
is_filled [] = false
is_filled (c ∷ s) = true

-- The segments that both loops go on with: not empty, and no UUID.
abbrev pub is_named : Segments → Text → Bool
is_named lib part = is_filled part && not (lib.is_uuid part)

-- `unicode.IsLetter(r) || unicode.IsDigit(r)`
abbrev pub is_letter_or_digit : Segments → ℕ → Bool
is_letter_or_digit lib c =
    if ltb c 128
    then leb b'a' c && leb c b'z' || leb b'A' c && leb c b'Z' || leb b'0' c && leb c b'9'
    else lib.is_word c

unfoldable pub snake : Segments → Text → Text
snake lib [] = []
snake lib (c ∷ s) =
    let rest = snake lib s in
    if is_letter_or_digit lib c
    then to_lower lib.lower c ∷ rest
    else (if c == b'-' || c == b' ' then b'_' ∷ rest else rest)

abbrev pub or_segment : Text → Text → Text
or_segment s [] = codes "seg_" ++ s
or_segment s (c ∷ result) = c ∷ result

unfoldable pub to_snake : Segments → Text → Text
unfolding snake
to_snake lib s = or_segment s (snake lib s)

-- `strings.Join(filtered, "_")`
abbrev pub joined_by_underscore : Text → List Text → Text
joined_by_underscore first [] = first
joined_by_underscore first (part ∷ parts) = first ++ b'_' ∷ joined_by_underscore part parts

unfoldable pub build_action_name : Segments → Text → Text → Text
unfolding one_slash drop_slashes strip_slashes split to_snake
build_action_name lib method path =
    let trimmed = trim_slashes (one_slash false (trim_prefix path (codes "/api/v1"))) in
    joined_by_underscore (map (to_lower lib.lower) method)
      (map (to_snake lib) (select (is_named lib) (split trimmed b'/')))

abbrev pub first_or : Text → List Text → Text
first_or default [] = default
first_or default (part ∷ parts) = part

unfoldable pub extract_target_type : Segments → Text → Text
unfolding drop_slashes strip_slashes split
extract_target_type lib path =
    first_or (codes "unknown")
      (select (is_named lib) (split (trim_slashes (trim_prefix path (codes "/api/v1"))) b'/'))
