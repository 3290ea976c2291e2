-- ===== src/Address/Safe.antt =====
-- What a validated host can hold.
use talepanel.Base.{
  ℕ, ℤ, pos, ◌≤ℤ◌, String, Bool, true, false, ◌&&◌, ◌||◌, Option, some, [], ◌∷◌, ◌++◌, ◌==◌, ◌≡◌,
  ◌≢◌, refl, ◌⊎◌, inl, inr, ◌≤◌, arith, All, Bool-cases, eq_iff, all, Text, codes, split,
  split_from, Option-cases,
}
use talepanel.Store.Exec.{ok}
use talepanel.Address.Validate.{
  is_label_char, is_label, strip_brackets, validate_node_host, validate_node_port,
  validate_node_address,
}

-- A character that cannot end or change the host part of a URL.
abbrev pub IsHostChar : ℕ → Type 0
IsHostChar c =
    (c ≢ b'/')
    × (c ≢ b'?')
    × (c ≢ b'#')
    × (c ≢ b'@')
    × (c ≢ b':')
    × (c ≢ b'%')
    × (c ≢ b'[')
    × (c ≢ b']')
    × (c ≢ 92)
    × (32 ≤ c)
    × (c ≢ 32)
    × (c ≤ 122)

label_char-IsHostChar : (c : ℕ) → is_label_char c ≡ true → IsHostChar c
label_char-IsHostChar c h = ground arith

abbrev host_char : ℕ → Bool
host_char c = c == b'.' || is_label_char c

all-append : (p : ℕ → Bool) (s t : Text) → all p (s ++ t) ≡ (all p s && all p t)
all-append p [] t = refl
all-append p (c ∷ s) t = ground (arith, all-append p s t)

is_label-chars : (label : Text) → is_label label ≡ true → all is_label_char label ≡ true
unfolding is_label
is_label-chars label h = ground arith

-- Labels that pass cover the whole text, but for the dots between them.
labels_cover :
    (cur s : Text)
    → all is_label (split_from b'.' cur s) ≡ true
    → (all is_label_char cur ≡ true) × (all host_char s ≡ true)
unfolding split_from
labels_cover cur [] h = (is_label-chars cur (ground arith), refl)
labels_cover cur (c ∷ s) h = elim (Bool-cases (c == b'.')) [
  | inl dot ↦ (is_label-chars cur (ground (arith, dot)), ground (arith, dot, labels_cover [] s))
  | inr other ↦
      let (before, rest) = labels_cover (cur ++ c ∷ []) s (ground (arith, other)) in
      (
        ground (arith, before, all-append is_label_char cur (c ∷ [])),
        ground (arith, before, rest, all-append is_label_char cur (c ∷ [])),
      )
]

All-host_char : (s : Text) → all host_char s ≡ true → All IsHostChar s
All-host_char [] h = tt
All-host_char (c ∷ s) h = (host_char-IsHostChar c (ground arith), All-host_char s (ground arith))
  where
    host_char-IsHostChar : (d : ℕ) → host_char d ≡ true → IsHostChar d
    host_char-IsHostChar d h' = elim (Bool-cases (d == b'.')) [
      | inl dot ↦ ground (arith, dot)
      | inr other ↦ label_char-IsHostChar d (ground (arith, other))
    ]

module _ (parse_addr : Text → Option Bool) where
  -- An IP address without a zone, or a text of harmless characters.
  abbrev pub IsSafeHost : String → Type 0
  IsSafeHost host =
      (parse_addr (strip_brackets (codes host)) ≡ some false)
      ⊎ All IsHostChar (strip_brackets (codes host))

  host-IsSafeHost : (host : String) → validate_node_host parse_addr host ≡ true → IsSafeHost host
  unfolding validate_node_host split
  host-IsSafeHost host h = elim (Option-cases (parse_addr (strip_brackets (codes host)))) [
    | inl e ↦ inr (
        All-host_char (strip_brackets (codes host))
          (labels_cover [] (strip_brackets (codes host)) (ground (arith, e))).1)
    | inr (zone, e) ↦ inl (ground (arith, e))
  ]

  address-inv :
      (fqdn public_address : String) (port : ℤ)
      → validate_node_address parse_addr fqdn port public_address ≡ ok tt
      → (validate_node_host parse_addr fqdn ≡ true)
        × (validate_node_port port ≡ true)
        × ((public_address ≡ "") ⊎ (validate_node_host parse_addr public_address ≡ true))
  unfolding validate_node_address
  address-inv fqdn public_address port h = ground (arith, eq_iff public_address "")

  port_range : (port : ℤ) → validate_node_port port ≡ true → (pos 1 ≤ℤ port) × (port ≤ℤ pos 65535)
  unfolding validate_node_port
  port_range port h = ground arith

  -- An address that validates has a port between 1 and 65535, and its fqdn, without the brackets
  -- around it if there are any, is an IP address without a zone or holds no character that could end
  -- or change the host part of a URL; so is or does its public address, unless it is empty.
  pub validated_address_safe :
      (fqdn public_address : String) (port : ℤ)
      → validate_node_address parse_addr fqdn port public_address ≡ ok tt
      → (pos 1 ≤ℤ port)
        × (port ≤ℤ pos 65535)
        × IsSafeHost fqdn
        × ((public_address ≡ "") ⊎ IsSafeHost public_address)
  validated_address_safe fqdn public_address port h =
      let (host, in_range, public) = address-inv fqdn public_address port h in
      let (low, high) = port_range port in_range in
      (
        low,
        high,
        host-IsSafeHost fqdn host,
        elim public [
          | inl empty ↦ inl empty
          | inr valid ↦ inr (host-IsSafeHost public_address valid)
        ],
      )
