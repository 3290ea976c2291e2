-- ===== src/Address/Filename.antt =====
-- The download names of daemon/host.go: SanitizeFilename, filenameFromDisposition and
-- AttachmentDisposition. A name is a list of code points. `parse` is mime.ParseMediaType, as far as
-- its parameter `filename` goes ([] where it is absent), `format` is mime.FormatMediaType with that
-- parameter ([] where it fails).
use talepanel.Base.{
  ℕ, Bool, not, ◌||◌, ◌==◌, Option, none, some, [], ◌∷◌, ◌++◌, ltb, select, map, Text, text_eq,
  codes, if◌then◌else◌,
}

-- `r < 0x20 || r == 0x7f`
abbrev pub is_control : ℕ → Bool
is_control c = ltb c 0x20 || c == 0x7F

-- strings.ReplaceAll(name, "\\", "/")
abbrev pub slashed : ℕ → ℕ
slashed c = if c == b'\\' then b'/' else c

abbrev pub kept_slash : ℕ → Text → Text
kept_slash c [] = if c == b'/' then [] else c ∷ []
kept_slash c (d ∷ s) = c ∷ d ∷ s

-- The slashes at the end go.
unfoldable pub strip_slashes : Text → Text
strip_slashes [] = []
strip_slashes (c ∷ s) = kept_slash c (strip_slashes s)

-- What stands behind the last slash.
unfoldable pub after_slash : Text → Text → Text
after_slash cur [] = cur
after_slash cur (c ∷ s) = if c == b'/' then after_slash [] s else after_slash (cur ++ c ∷ []) s

abbrev pub or_slash : Text → Text
or_slash [] = b'/' ∷ []
or_slash (c ∷ s) = c ∷ s

-- path.Base
unfoldable pub base_name : Text → Text
unfolding strip_slashes after_slash
base_name [] = b'.' ∷ []
base_name (c ∷ s) = or_slash (after_slash [] (strip_slashes (c ∷ s)))

-- `name == "." || name == "/" || name == ".."`
abbrev pub is_special_name : Text → Bool
is_special_name name =
    text_eq name (b'.' ∷ []) || text_eq name (b'/' ∷ []) || text_eq name (b'.' ∷ b'.' ∷ [])

unfoldable pub sanitize_filename : Text → Text
unfolding base_name
sanitize_filename name =
    let base = base_name (map slashed (select (λ c. not (is_control c)) name)) in
    if is_special_name base then [] else base

abbrev pub unless_empty : Text → Text → Text
unless_empty [] fallback = fallback
unless_empty (c ∷ s) fallback = c ∷ s

abbrev pub named : Option Text → Text → Text
named none fallback = fallback
named (some name) fallback = unless_empty (sanitize_filename name) fallback

unfoldable pub filename_from_disposition : (Text → Option Text) → Text → Text → Text
unfolding sanitize_filename
filename_from_disposition parse disposition fallback = named (parse disposition) fallback

abbrev pub disposition_of : (Text → Text) → Text → Text
disposition_of format [] = codes "attachment"
disposition_of format (c ∷ s) = unless_empty (format (c ∷ s)) (codes "attachment")

unfoldable pub attachment_disposition : (Text → Text) → Text → Text
unfolding sanitize_filename
attachment_disposition format name = disposition_of format (sanitize_filename name)
