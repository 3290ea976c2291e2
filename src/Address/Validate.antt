-- ===== src/Address/Validate.antt =====
-- ValidateNodeHost, ValidateNodePort and validateNodeAddress. A host is read by code points; its
-- length is its bytes. `parse_addr` is net/netip's ParseAddr: none for an error, else whether the
-- address has a zone.
use Prim.Native.String.{len}
use talepanel.Base.{
  ℕ, ℤ, pos, ltb_ℤ, String, Bool, true, false, not, ◌&&◌, ◌||◌, Option, none, some, [], ◌∷◌, length,
  ltb, leb, ◌==◌, str_eq, all, if◌then◌else◌, Text, codes, split,
}
use talepanel.Store.Exec.{Result, ok, err, invalid_node_address}

abbrev pub last_is : ℕ → Text → Bool
last_is c [] = false
last_is c (d ∷ []) = d == c
last_is c (d ∷ e ∷ s) = last_is c (e ∷ s)

abbrev pub first_is : ℕ → Text → Bool
first_is c [] = false
first_is c (d ∷ s) = d == c

abbrev pub without_first : Text → Text
without_first [] = []
without_first (c ∷ s) = s

abbrev pub without_last : Text → Text
without_last [] = []
without_last (c ∷ []) = []
without_last (c ∷ d ∷ s) = c ∷ without_last (d ∷ s)

-- `host[1 : len(host)-1]` where the host begins with "[" and ends with "]".
unfoldable pub strip_brackets : Text → Text
strip_brackets host =
    if first_is b'[' host && last_is b']' host then without_last (without_first host) else host

abbrev pub is_label_char : ℕ → Bool
is_label_char c =
    leb b'a' c && leb c b'z'
    || leb b'A' c && leb c b'Z'
    || leb b'0' c && leb c b'9'
    || c == b'-'
    || c == b'_'

abbrev is_empty : Text → Bool
is_empty [] = true
is_empty (c ∷ s) = false

-- One round of the loop over the labels.
unfoldable pub is_label : Text → Bool
is_label label =
    not (is_empty label || ltb 63 (length label) || first_is b'-' label || last_is b'-' label)
    && all is_label_char label

unfoldable pub validate_node_port : ℤ → Bool
validate_node_port port = not (ltb_ℤ port (pos 1) || ltb_ℤ (pos 65535) port)

module _ (parse_addr : Text → Option Bool) where
  -- The host without its brackets.
  unfoldable pub bare_host_ok : Text → Bool
  bare_host_ok host = elim (parse_addr host) [
    | some has_zone ↦ not has_zone
    | none ↦ all is_label (split host b'.')
  ]

  unfoldable pub validate_node_host : String → Bool
  unfolding bare_host_ok
  validate_node_host host =
      not (str_eq host "" || ltb 253 (len host)) && bare_host_ok (strip_brackets (codes host))

  unfoldable pub validate_node_address : String → ℤ → String → Result (Unit {0})
  validate_node_address fqdn port public_address =
      if not (validate_node_host fqdn)
      then err invalid_node_address
      else (if not (validate_node_port port)
          then err invalid_node_address
          else (if not (str_eq public_address "") && not (validate_node_host public_address)
              then err invalid_node_address
              else ok tt))
