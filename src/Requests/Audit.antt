-- ===== src/Requests/Audit.antt =====
-- middleware/audit.go: what AuditLog does to the body of a request before the handlers behind it.
use talepanel.Base.{
  ℕ, zero, suc, String, Bool, true, not, ◌||◌, ◌&&◌, List, [], ◌∷◌, length, take, str_eq, ltb,
  if◌then◌else◌, codes, ◌≡◌, ap, arith, refl, false, ◌⊎◌, inl, inr, ◌↔◌, ◌≤◌, Bool-cases,
}
use talepanel.Webhook.Validate.{has_prefix}
use talepanel.Requests.BodyLimit.{Handed, rejected, empty, body, cut_off}

-- The cap of the buffer, 64 KB.
abbrev pub buffer_size : ℕ
buffer_size = 65536

abbrev pub is_read_only : String → Bool
is_read_only method = str_eq method "GET" || str_eq method "HEAD"

-- Whether AuditLog reads the body into its buffer.
abbrev pub is_buffered : String → String → Bool
is_buffered method content_type =
    not (is_read_only method) && not (has_prefix (codes content_type) (codes "multipart/"))

-- `io.ReadAll(io.LimitReader(body, 64*1024))`, put back in place of the body. The cap of the body
-- limit lies above the buffer, so its error is not reached.
abbrev pub buffered : Handed → Handed
buffered (rejected status) = rejected status
buffered empty = empty
buffered (body bytes) = body (take buffer_size bytes)
buffered (cut_off limit bytes) = body (take buffer_size bytes)

-- The body that a handler behind AuditLog reads.
unfoldable pub audited : String → String → Handed → Handed
audited method content_type handed =
    if is_buffered method content_type then buffered handed else handed

length-take_min :
    (n : ℕ) (xs : List ℕ) → length (take n xs) ≡ (if ltb n (length xs) then n else length xs)
length-take_min zero [] = omega arith
length-take_min zero (x ∷ xs) = ground arith
length-take_min (suc n) [] = ground arith
length-take_min (suc n) (x ∷ xs) = ground (arith, length-take_min n xs)

-- Taking n elements leaves the list as it is just when it has no more.
take-whole : (n : ℕ) (xs : List ℕ) → length xs ≤ n → take n xs ≡ xs
take-whole zero [] h = refl
take-whole (suc n) [] h = refl
take-whole zero (x ∷ xs) h = absurd (ground (arith, h))
take-whole (suc n) (x ∷ xs) h = ap (λ ys. x ∷ ys) (take-whole n xs (ground (arith, h)))

whole-take : (n : ℕ) (xs : List ℕ) → take n xs ≡ xs → length xs ≤ n
whole-take n xs same = ground (arith, length-take_min n xs, ap length same)

neither : (a b : Bool) → (not a && not b) ≡ true → (a ≡ false) × (b ≡ false)
neither a b h = (ground arith, ground arith)

either : (a b : Bool) → (not a && not b) ≡ false → (a ≡ true) ⊎ (b ≡ true)
either a b h = ground arith

length-take_bound : (n : ℕ) (xs : List ℕ) → length (take n xs) ≤ n
length-take_bound n xs = ground (arith, length-take_min n xs)

-- When the handlers behind AuditLog get all of a body: its request only reads, or is multipart, or
-- the body has at most 64 KB.
abbrev pub IsUncut : String → String → List ℕ → Type 0
IsUncut method content_type bytes =
    (is_read_only method ≡ true)
    ⊎ (has_prefix (codes content_type) (codes "multipart/") ≡ true)
    ⊎ (length bytes ≤ 65536)

-- Of a body that AuditLog is handed whole, a handler behind it reads at most 64 KB or all of it, to an
-- end without an error. It is all of it just when the method is GET or HEAD, or the content type
-- begins with multipart/, or the body has at most 64 KB.
pub audited_body_cut :
    (method content_type : String) (bytes : List ℕ)
    → (got : List ℕ) × (audited method content_type (body bytes) ≡ body got)
      × ((length got ≤ 65536) ⊎ (got ≡ bytes))
      × ((got ≡ bytes) ↔ IsUncut method content_type bytes)
unfolding audited
audited_body_cut method content_type bytes = elim (Bool-cases (is_buffered method content_type)) [
  | inl cut ↦ (
    take buffer_size bytes,
    ap (λ b. if b then buffered (body bytes) else body bytes) cut,
    inl (length-take_bound buffer_size bytes),
    (
      (λ same. inr (inr (whole-take buffer_size bytes same))),
      (λ uncut. elim uncut [
        | inl reads ↦ absurd (cc (reads, (neither _ _ cut).0))
        | inr (inl parts) ↦ absurd (cc (parts, (neither _ _ cut).1))
        | inr (inr short) ↦ take-whole buffer_size bytes short
      ]),
    ),
  )
  | inr kept ↦ (
    bytes,
    ap (λ b. if b then buffered (body bytes) else body bytes) kept,
    inr refl,
    (
      (λ same. elim (either _ _ kept) [ inl reads ↦ inl reads | inr parts ↦ inr (inl parts) ]),
      (λ uncut. refl),
    ),
  )
]
