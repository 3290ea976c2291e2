-- ===== src/Address/Download.antt =====
-- A sanitised name is one path element, and stays itself.
use talepanel.Base.{
  ℕ, Bool, true, false, not, ◌&&◌, ◌==◌, Option, some, [], ◌∷◌, ◌++◌, all, select, map, Text, codes,
  if◌then◌else◌, ◌≡◌, ◌≢◌, refl, sym, ap, ◌∙◌, arith, Bool-cases, inl, inr, ◌⊎◌, ◌≤◌, All, none,
  subst, text_eq, text_eq→eq,
}
use talepanel.Address.Filename.{
  is_control, slashed, strip_slashes, kept_slash, after_slash, or_slash, base_name, is_special_name,
  sanitize_filename, unless_empty, named, filename_from_disposition, disposition_of,
  attachment_disposition,
}

-- No control character and no backslash; a slash may be there.
abbrev clean : ℕ → Bool
clean c = not (is_control c) && not (c == b'\\')

-- A character of a single path element.
abbrev pub plain : ℕ → Bool
plain c = clean c && not (c == b'/')

all-mapped : (s : Text) → all clean (map slashed (select (λ c. not (is_control c)) s)) ≡ true
all-mapped [] = refl
all-mapped (c ∷ s) = elim (Bool-cases (is_control c)) [
  | inl bad ↦ ground (arith, bad, all-mapped s)
  | inr good ↦ ground (arith, good, all-mapped s)
]

all-kept :
    (c : ℕ) (s : Text) → clean c ≡ true → all clean s ≡ true → all clean (kept_slash c s) ≡ true
all-kept c [] h k = ground arith
all-kept c (d ∷ s) h k = ground arith

all-strip : (s : Text) → all clean s ≡ true → all clean (strip_slashes s) ≡ true
unfolding strip_slashes
all-strip [] h = refl
all-strip (c ∷ s) h = all-kept c (strip_slashes s) (ground arith) (all-strip s (ground arith))

all-append :
    (s : Text) (c : ℕ) → all plain s ≡ true → plain c ≡ true → all plain (s ++ c ∷ []) ≡ true
all-append [] c h k = ground arith
all-append (d ∷ s) c h k = ground (arith, all-append s c)

all-after :
    (cur s : Text)
    → all plain cur ≡ true
    → all clean s ≡ true
    → all plain (after_slash cur s) ≡ true
unfolding after_slash
all-after cur [] h k = h
all-after cur (c ∷ s) h k = elim (Bool-cases (c == b'/')) [
  | inl slash ↦ ground (arith, slash, all-after [] s refl)
  | inr other ↦ ground (arith, other, all-append cur c, all-after (cur ++ c ∷ []) s)
]

-- One path element, or the names that path.Base makes up.
base-plain :
    (s : Text)
    → all clean s ≡ true
    → is_special_name (base_name s) ≡ false
    → all plain (base_name s) ≡ true
unfolding base_name
base-plain [] h k = absurd (ground arith)
base-plain (c ∷ s) h k =
    slash_or (after_slash [] (strip_slashes (c ∷ s)))
      (all-after [] (strip_slashes (c ∷ s)) refl (all-strip (c ∷ s) h)) k
  where
    slash_or :
        (t : Text)
        → all plain t ≡ true
        → is_special_name (or_slash t) ≡ false
        → all plain (or_slash t) ≡ true
    slash_or [] g l = absurd (ground arith)
    slash_or (d ∷ t) g l = g

-- A sanitised name has no slash, no backslash and no control character, and is neither "." nor "..".
pub sanitized_filename_safe :
    (name : Text)
    → (all plain (sanitize_filename name) ≡ true)
      × (is_special_name (sanitize_filename name) ≡ false)
unfolding sanitize_filename
sanitized_filename_safe name =
    let s = map slashed (select (λ c. not (is_control c)) name) in
    elim (Bool-cases (is_special_name (base_name s))) [
      | inl special ↦ (ground (arith, special), ground (arith, special))
      | inr other ↦
          let ok_ = base-plain s (all-mapped name) other in
          (ground (arith, other, ok_), ground (arith, other))
    ]

same-mapped : (s : Text) → all plain s ≡ true → map slashed (select (λ c. not (is_control c)) s) ≡ s
same-mapped [] h = refl
same-mapped (c ∷ s) h = ground (arith, same-mapped s)

same-strip : (s : Text) → all plain s ≡ true → strip_slashes s ≡ s
unfolding strip_slashes
same-strip [] h = refl
same-strip (c ∷ s) h = ap (kept_slash c) (same-strip s (ground arith)) ∙ kept c s (ground arith)
  where
    kept : (c : ℕ) (s : Text) → (c == b'/') ≡ false → kept_slash c s ≡ c ∷ s
    kept c [] k = ground arith
    kept c (d ∷ s) k = refl

append_nil : (s : Text) → s ++ [] ≡ s
append_nil [] = refl
append_nil (c ∷ s) = ap (λ t. c ∷ t) (append_nil s)

append_one : (cur : Text) (c : ℕ) (s : Text) → (cur ++ c ∷ []) ++ s ≡ cur ++ (c ∷ s)
append_one [] c s = refl
append_one (d ∷ cur) c s = ap (λ t. d ∷ t) (append_one cur c s)

same-after : (cur s : Text) → all plain s ≡ true → after_slash cur s ≡ cur ++ s
unfolding after_slash
same-after cur [] h = sym (append_nil cur)
same-after cur (c ∷ s) h =
    at_plain (c == b'/') (ground arith)
    ∙ same-after (cur ++ c ∷ []) s (ground arith)
    ∙ append_one cur c s
  where
    at_plain :
        (b : Bool)
        → b ≡ false
        → (if b then after_slash [] s else after_slash (cur ++ c ∷ []) s)
          ≡ after_slash (cur ++ c ∷ []) s
    at_plain true k = absurd (ground (arith, k))
    at_plain false k = refl

same-base : (c : ℕ) (s : Text) → all plain (c ∷ s) ≡ true → base_name (c ∷ s) ≡ c ∷ s
unfolding base_name
same-base c s h = ap or_slash (ap (after_slash []) (same-strip (c ∷ s) h) ∙ same-after [] (c ∷ s) h)

-- What is plain and no special name passes as it is.
same-sanitize :
    (s : Text) → all plain s ≡ true → is_special_name s ≡ false → sanitize_filename s ≡ s
unfolding sanitize_filename
same-sanitize [] h k = refl
same-sanitize (c ∷ s) h k =
    ap (λ t. if is_special_name t then [] else t)
      (ap base_name (same-mapped (c ∷ s) h) ∙ same-base c s h)
    ∙ not_special (is_special_name (c ∷ s)) k
  where
    not_special : (b : Bool) → b ≡ false → (if b then [] else c ∷ s) ≡ c ∷ s
    not_special true l = absurd (ground (arith, l))
    not_special false l = refl

-- Sanitising a name twice is sanitising it once.
pub sanitize_filename-idempotent :
    (name : Text) → sanitize_filename (sanitize_filename name) ≡ sanitize_filename name
sanitize_filename-idempotent name =
    let safe = sanitized_filename_safe name in same-sanitize (sanitize_filename name) safe.0 safe.1

-- A character that a single path element may hold.
abbrev pub IsNameChar : ℕ → Type 0
IsNameChar c = (32 ≤ c) × (c ≢ 127) × (c ≢ b'/') × (c ≢ 92)

-- A file name that stays in its directory.
abbrev pub IsSafeName : Text → Type 0
IsSafeName name = All IsNameChar name × (name ≢ []) × (name ≢ b'.' ∷ []) × (name ≢ b'.' ∷ b'.' ∷ [])

plain-IsNameChar : (c : ℕ) → plain c ≡ true → IsNameChar c
plain-IsNameChar c h = ground arith

All-IsNameChar : (s : Text) → all plain s ≡ true → All IsNameChar s
All-IsNameChar [] h = tt
All-IsNameChar (c ∷ s) h = (plain-IsNameChar c (ground arith), All-IsNameChar s (ground arith))

IsNameChar-plain : (c : ℕ) → IsNameChar c → plain c ≡ true
IsNameChar-plain c h = ground arith

All-plain : (s : Text) → All IsNameChar s → all plain s ≡ true
All-plain [] h = refl
All-plain (c ∷ s) (h, rest) = ground (arith, IsNameChar-plain c h, All-plain s rest)

special-refused : (s t : Text) → is_special_name s ≡ false → is_special_name t ≡ true → s ≢ t
special-refused s t h k same = ground (arith, ap is_special_name same)

sanitized-IsSafeName :
    (name : Text) → sanitize_filename name ≢ [] → IsSafeName (sanitize_filename name)
sanitized-IsSafeName name filled =
    let (chars, ordinary) = sanitized_filename_safe name in
    (
      All-IsNameChar (sanitize_filename name) chars,
      filled,
      special-refused (sanitize_filename name) (b'.' ∷ []) ordinary refl,
      special-refused (sanitize_filename name) (b'.' ∷ b'.' ∷ []) ordinary refl,
    )

-- A list is empty or not.
empty_or_filled : (s : Text) → (s ≡ []) ⊎ (s ≢ [])
empty_or_filled [] = inl refl
empty_or_filled (c ∷ s) = inr (λ h. absurd (ground (arith, h)))

filled-unless_empty : (s fallback : Text) → s ≢ [] → unless_empty s fallback ≡ s
filled-unless_empty [] fallback h = absurd (h refl)
filled-unless_empty (c ∷ s) fallback h = refl

filled-disposition_of :
    (format : Text → Text) (s : Text)
    → s ≢ []
    → disposition_of format s ≡ unless_empty (format s) (codes "attachment")
filled-disposition_of format [] h = absurd (h refl)
filled-disposition_of format (c ∷ s) h = refl

text_eq-false : (s t : Text) → s ≢ t → text_eq s t ≡ false
text_eq-false s t differs = elim (Bool-cases (text_eq s t)) [
  | inl same ↦ absurd (differs (text_eq→eq s t same))
  | inr other ↦ other
]

not_slash : (name : Text) → All IsNameChar name → name ≢ b'/' ∷ []
not_slash name chars same =
    let ((low, high, slash, back), rest) = subst (All IsNameChar) same chars in slash refl

ordinary-name :
    (name : Text)
    → All IsNameChar name
    → name ≢ b'.' ∷ []
    → name ≢ b'.' ∷ b'.' ∷ []
    → is_special_name name ≡ false
ordinary-name name chars not_dot not_dots = cc (
  text_eq-false name (b'.' ∷ []) not_dot,
  text_eq-false name (b'/' ∷ []) (not_slash name chars),
  text_eq-false name (b'.' ∷ b'.' ∷ []) not_dots,
)

module _ (parse : Text → Option Text) (format : Text → Text) where
  named-safe :
      (found : Option Text) (fallback : Text)
      → (named found fallback ≡ fallback) ⊎ IsSafeName (named found fallback)
  named-safe none fallback = inl refl
  named-safe (some name) fallback = elim (empty_or_filled (sanitize_filename name)) [
    | inl nothing ↦ inl (ap (λ s. unless_empty s fallback) nothing)
    | inr filled ↦ inr (
        subst IsSafeName (sym (filled-unless_empty (sanitize_filename name) fallback filled))
          (sanitized-IsSafeName name filled))
  ]

  -- The name that is read from any header of a download is the fallback, or a file name: not empty,
  -- neither "." nor "..", without slash, backslash or control character. The header that is written
  -- for a name, whatever it is, is the bare "attachment" or what mime.FormatMediaType makes of such a
  -- file name.
  pub download_names_safe :
      (disposition fallback name : Text)
      → ((filename_from_disposition parse disposition fallback ≡ fallback)
          ⊎ IsSafeName (filename_from_disposition parse disposition fallback))
        × ((attachment_disposition format name ≡ codes "attachment")
            ⊎ ((s : Text) × IsSafeName s × (attachment_disposition format name ≡ format s)))
  unfolding filename_from_disposition attachment_disposition
  download_names_safe disposition fallback name = (
    named-safe (parse disposition) fallback,
    elim (empty_or_filled (sanitize_filename name)) [
      | inl nothing ↦ inl (ap (disposition_of format) nothing)
      | inr filled ↦ elim (empty_or_filled (format (sanitize_filename name))) [
        | inl failed ↦ inl (
            filled-disposition_of format (sanitize_filename name) filled
            ∙ ap (λ t. unless_empty t (codes "attachment")) failed)
        | inr written ↦ inr (
          sanitize_filename name,
          sanitized-IsSafeName name filled,
          filled-disposition_of format (sanitize_filename name) filled
              ∙ filled-unless_empty (format (sanitize_filename name)) (codes "attachment") written,
        )
      ]
    ],
  )

  safe-sanitize : (name : Text) → IsSafeName name → sanitize_filename name ≡ name
  safe-sanitize name (chars, filled, not_dot, not_dots) =
      same-sanitize name (All-plain name chars) (ordinary-name name chars not_dot not_dots)

  -- A file name that is not empty, neither "." nor "..", and without slash, backslash and control
  -- character comes back from the header that is written for it, where mime.FormatMediaType can
  -- write it and mime.ParseMediaType reads back what it wrote for such names.
  pub attachment-filename :
      (name fallback : Text)
      → ((s : Text) → IsSafeName s → format s ≢ [] → parse (format s) ≡ some s)
      → format name ≢ []
      → IsSafeName name
      → filename_from_disposition parse (attachment_disposition format name) fallback ≡ name
  unfolding filename_from_disposition attachment_disposition
  attachment-filename name fallback reads writes safe =
      let same = safe-sanitize name safe in
      let filled = safe.1 in
      ap (λ s. named (parse (disposition_of format s)) fallback) same
      ∙ ap (λ t. named (parse t) fallback)
          (filled-disposition_of format name filled
            ∙ filled-unless_empty (format name) (codes "attachment") writes)
      ∙ ap (λ r. named r fallback) (reads name safe writes)
      ∙ ap (λ s. unless_empty s fallback) same
      ∙ filled-unless_empty name fallback filled
