-- ===== src/Requests/Redaction.antt =====
-- middleware/audit.go, cleanPayloadValue: what the audit log stores of a JSON body. A decoded text is
-- valid UTF-8, so ToValidUTF8 leaves it alone. An object lists its entries in the order of the range
-- loop, whatever that is.
use Prim.Native.Char.{code}
use Prim.Native.String.{String}
use talepanel.Base.{
  ℕ, Bool, true, false, not, ◌&&◌, ◌||◌, List, [], ◌∷◌, any, ◌==◌, str_eq, eq_iff, if◌then◌else◌,
  Unicode, to_lower_string, ◌≡◌, refl, ap, arith, Bool-cases, inl, inr,
}

mutual
  pub data Json : Type 0 where
    json_null : Json
    -- a number or a Boolean
    scalar : ℕ → Json
    text : String → Json
    array : Elements → Json
    object : Entries → Json

  pub data Elements : Type 0 where
    no_more : Elements
    element : Json → Elements → Elements

  pub data Entries : Type 0 where
    end_of_entries : Entries
    entry : String → Json → Entries → Entries

abbrev pub sensitive_fields : List String
sensitive_fields =
    "password" ∷ "password_confirm" ∷ "new_password" ∷ "old_password" ∷ "totp_secret" ∷ "token"
    ∷ "refresh_token" ∷ "access_token" ∷ "secret" ∷ "setup_code" ∷ "api_key" ∷ "secrets" ∷ []

-- `strings.ReplaceAll(s, "\x00", "")`
unfoldable pub clean_payload_string : String → String
clean_payload_string String.[] = String.[]
clean_payload_string (String.◌∷◌ c s) =
    if code c == 0 then clean_payload_string s else String.◌∷◌ c (clean_payload_string s)

-- `out[key] = value`
unfoldable pub put : String → Json → Entries → Entries
put key value end_of_entries = entry key value end_of_entries
put key value (entry k v entries) =
    if str_eq k key then entry k value entries else entry k v (put key value entries)

module _ (unicode : Unicode) where
  unfoldable pub is_sensitive : String → Bool
  is_sensitive key = any (str_eq (to_lower_string unicode key)) sensitive_fields

  unfoldable mutual
    pub clean_payload_value : Json → Json
    clean_payload_value json_null = json_null
    clean_payload_value (scalar n) = scalar n
    clean_payload_value (text s) = text (clean_payload_string s)
    clean_payload_value (array elements) = array (clean_elements elements)
    clean_payload_value (object entries) = object (clean_entries entries end_of_entries)

    pub clean_elements : Elements → Elements
    clean_elements no_more = no_more
    clean_elements (element v elements) = element (clean_payload_value v) (clean_elements elements)

    -- The loop over the entries, with the map written so far.
    pub clean_entries : Entries → Entries → Entries
    clean_entries end_of_entries out = out
    clean_entries (entry k v entries) out =
        let cleaned = clean_payload_value v in
        clean_entries entries (
          put (clean_payload_string k)
            (if is_sensitive (clean_payload_string k) then text "[REDACTED]" else cleaned) out)

  abbrev pub is_redacted : Json → Bool
  is_redacted json_null = false
  is_redacted (scalar n) = false
  is_redacted (text s) = str_eq s "[REDACTED]"
  is_redacted (array elements) = false
  is_redacted (object entries) = false

  -- No text holds a NUL, and what stands at a sensitive key is redacted, at any depth.
  unfoldable pub has_no_nul : String → Bool
  has_no_nul String.[] = true
  has_no_nul (String.◌∷◌ c s) = not (code c == 0) && has_no_nul s

  unfoldable mutual
    pub is_storable : Json → Bool
    is_storable json_null = true
    is_storable (scalar n) = true
    is_storable (text s) = has_no_nul s
    is_storable (array elements) = are_storable elements
    is_storable (object entries) = entries_storable entries

    pub are_storable : Elements → Bool
    are_storable no_more = true
    are_storable (element v elements) = is_storable v && are_storable elements

    pub entries_storable : Entries → Bool
    entries_storable end_of_entries = true
    entries_storable (entry k v entries) =
        has_no_nul k
        && is_storable v
        && (not (is_sensitive k) || is_redacted v)
        && entries_storable entries

  clean_payload_string-has_no_nul : (s : String) → has_no_nul (clean_payload_string s) ≡ true
  unfolding has_no_nul clean_payload_string
  clean_payload_string-has_no_nul String.[] = refl
  clean_payload_string-has_no_nul (String.◌∷◌ c s) =
      ground (arith, clean_payload_string-has_no_nul s)

  put-storable :
      (key : String) (value : Json) (out : Entries)
      → has_no_nul key ≡ true
      → is_storable value ≡ true
      → (not (is_sensitive key) || is_redacted value) ≡ true
      → entries_storable out ≡ true
      → entries_storable (put key value out) ≡ true
  unfolding put entries_storable
  put-storable key value end_of_entries k v r o = ground (arith, k, v, r)
  put-storable key value (entry k2 v2 out) k v r o = elim (Bool-cases (str_eq k2 key)) [
    | inl same ↦
        let e = (eq_iff k2 key).0 same in
        ground (arith, same, v, r, ap is_sensitive e, ap has_no_nul e)
    | inr other ↦ ground (arith, other, put-storable key value out k v r)
  ]

  written_storable :
      (sensitive : Bool) (cleaned : Json)
      → is_storable cleaned ≡ true
      → (is_storable (if sensitive then text "[REDACTED]" else cleaned) ≡ true)
        × ((not sensitive || is_redacted (if sensitive then text "[REDACTED]" else cleaned)) ≡ true)
  unfolding is_storable has_no_nul
  written_storable true cleaned h = (refl, refl)
  written_storable false cleaned h = (h, refl)

  mutual
    unfolding is_storable clean_payload_value

    value_storable : (v : Json) → is_storable (clean_payload_value v) ≡ true
    value_storable json_null = refl
    value_storable (scalar n) = refl
    value_storable (text s) = clean_payload_string-has_no_nul s
    value_storable (array elements) = clean_elements_storable elements
    value_storable (object entries) = clean_entries_storable entries end_of_entries refl

    clean_elements_storable : (elements : Elements) → are_storable (clean_elements elements) ≡ true
    clean_elements_storable no_more = refl
    clean_elements_storable (element v elements) =
        ground (arith, value_storable v, clean_elements_storable elements)

    clean_entries_storable :
        (entries out : Entries)
        → entries_storable out ≡ true
        → entries_storable (clean_entries entries out) ≡ true
    clean_entries_storable end_of_entries out h = h
    clean_entries_storable (entry k v entries) out h =
        let (value, rule) =
          written_storable (is_sensitive (clean_payload_string k)) (clean_payload_value v)
            (value_storable v) in
        clean_entries_storable entries _ (
          put-storable (clean_payload_string k) _ out (clean_payload_string-has_no_nul k) value rule
            h)

  -- Whatever a JSON body holds, in what the audit log stores of it no text holds a NUL, and what
  -- stands at a sensitive key, in any spelling of its case and at any depth, is redacted.
  pub clean_payload_value_storable : (v : Json) → is_storable (clean_payload_value v) ≡ true
  clean_payload_value_storable v = value_storable v
