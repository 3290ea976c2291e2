-- ===== src/Webhook/Ranges.antt =====
-- IsPublicAddr against the address blocks that are not public, as first and last addresses.
use talepanel.Base.{
  if◌then◌else◌, Bool-cases, inl, inr, ℕ, ◌+◌, ◌*◌, ◌/◌, ◌-◌, ◌%◌, ◌^◌, ◌<◌, Bool, true, false, not,
  ◌&&◌, ◌||◌, List, [], ◌∷◌, any, ◌==◌, leb, ◌≡◌, refl, arith, ◌∙◌, ap, sym,
}
use talepanel.Webhook.Addr.{
  Addr, invalid, v4, v6, ipv4, is_public_addr, is_public_unmapped, unmapped_if,
}

abbrev pub within : ℕ → ℕ × ℕ → Bool
within n (first, last) = leb first n && leb n last

-- The IPv4 blocks.
abbrev pub blocks4 : List (ℕ × ℕ)
blocks4 =
    (ipv4 0 0 0 0, ipv4 0 255 255 255)
    ∷ (ipv4 10 0 0 0, ipv4 10 255 255 255)
    ∷ (ipv4 100 64 0 0, ipv4 100 127 255 255)
    ∷ (ipv4 127 0 0 0, ipv4 127 255 255 255)
    ∷ (ipv4 169 254 0 0, ipv4 169 254 255 255)
    ∷ (ipv4 172 16 0 0, ipv4 172 31 255 255)
    ∷ (ipv4 192 0 0 0, ipv4 192 0 0 255)
    ∷ (ipv4 192 168 0 0, ipv4 192 168 255 255)
    ∷ (ipv4 198 18 0 0, ipv4 198 19 255 255)
    ∷ (ipv4 224 0 0 0, ipv4 255 255 255 255)
    ∷ []

-- The IPv6 blocks of whole prefixes: ::1, the mapped addresses aside, fc00::/7, fe80::/10, ff00::/8;
-- and, for an address without a zone only, :: and 64:ff9b::/96.
abbrev pub blocks6 : List (ℕ × ℕ)
blocks6 =
    (1, 1)
    ∷ (0xfc * 2 ^ 120, 0xfe * 2 ^ 120 - 1)
    ∷ (0xfe80 * 2 ^ 112, 0xfec0 * 2 ^ 112 - 1)
    ∷ (0xff * 2 ^ 120, 2 ^ 128 - 1)
    ∷ []

abbrev pub blocks6_unzoned : List (ℕ × ℕ)
blocks6_unzoned =
    (0, 0) ∷ (0x64 * 2 ^ 112 + 0xff9b * 2 ^ 96, 0x64 * 2 ^ 112 + 0xff9b * 2 ^ 96 + 2 ^ 32 - 1) ∷ []

-- The tests of one IPv4 address, in the order of the code and in that of the blocks.
tests4 :
    (loopback a b c link_local local_multicast multicast unspecified cgn zero bench high ietf last
      top : Bool)
    → (multicast || high) ≡ top
    → (local_multicast && not multicast) ≡ false
    → (last && not high) ≡ false
    → (unspecified && not zero) ≡ false
    → ((loopback
          || (a || b || c)
          || link_local
          || local_multicast
          || false
          || multicast
          || unspecified)
        || (cgn || (false || (zero || (bench || (high || (ietf || false))))))
        || last)
      ≡ (zero
          || (a
              || (cgn
                  || (loopback
                      || (link_local || (b || (ietf || (c || (bench || (top || false))))))))))
tests4 loopback a b c link_local local_multicast multicast unspecified cgn zero bench high ietf last
      top h1 h2 h3 h4 =
    ground arith

-- An IPv4 address is public exactly outside the blocks.
pub is_public_addr-v4 : (n : ℕ) → n < 2 ^ 32 → is_public_addr (v4 n) ≡ not (any (within n) blocks4)
unfolding is_public_addr
is_public_addr-v4 n small =
    let zero : (n / 2 ^ 24 == 0) ≡ within n (ipv4 0 0 0 0, ipv4 0 255 255 255) = ground arith in
    let a : (n / 2 ^ 24 == 10) ≡ within n (ipv4 10 0 0 0, ipv4 10 255 255 255) = ground arith in
    let cgn : (n / 2 ^ 22 == ipv4 100 64 0 0 / 2 ^ 22)
        ≡ within n (ipv4 100 64 0 0, ipv4 100 127 255 255) =
      ground arith in
    let loopback : (n / 2 ^ 24 == 127) ≡ within n (ipv4 127 0 0 0, ipv4 127 255 255 255) =
      ground arith in
    let link : (n / 2 ^ 16 == 43518) ≡ within n (ipv4 169 254 0 0, ipv4 169 254 255 255) =
      ground arith in
    let b : (n / 2 ^ 20 == 2753) ≡ within n (ipv4 172 16 0 0, ipv4 172 31 255 255) = ground arith in
    let ietf : (n / 2 ^ 8 == ipv4 192 0 0 0 / 2 ^ 8) ≡ within n (ipv4 192 0 0 0, ipv4 192 0 0 255) =
      ground arith in
    let c : (n / 2 ^ 16 == 49320) ≡ within n (ipv4 192 168 0 0, ipv4 192 168 255 255) =
      ground arith in
    let bench : (n / 2 ^ 17 == ipv4 198 18 0 0 / 2 ^ 17)
        ≡ within n (ipv4 198 18 0 0, ipv4 198 19 255 255) =
      ground arith in
    let shape =
      tests4 (n / 2 ^ 24 == 127) (n / 2 ^ 24 == 10) (n / 2 ^ 20 == 2753) (n / 2 ^ 16 == 49320)
        (n / 2 ^ 16 == 43518) (n / 2 ^ 8 == 14680064) (n / 2 ^ 28 == 14) (n == 0)
        (n / 2 ^ 22 == ipv4 100 64 0 0 / 2 ^ 22) (n / 2 ^ 24 == 0)
        (n / 2 ^ 17 == ipv4 198 18 0 0 / 2 ^ 17) (n / 2 ^ 28 == 15)
        (n / 2 ^ 8 == ipv4 192 0 0 0 / 2 ^ 8) (n == ipv4 255 255 255 255)
        (within n (ipv4 224 0 0 0, ipv4 255 255 255 255)) (ground arith) (ground arith)
        (ground arith) (ground arith) in
    ap not (shape ∙ rw (zero, a, cgn, loopback, link, b, ietf, c, bench) refl)

pub is_public_addr-v6 :
    (n : ℕ) (zone : Bool)
    → n < 2 ^ 128
    → (n / 2 ^ 32 == 0xffff) ≡ false
    → is_public_addr (v6 n zone)
      ≡ not (any (within n) blocks6 || not zone && any (within n) blocks6_unzoned)
unfolding is_public_addr
is_public_addr-v6 n true small unmapped = ground (arith, unmapped)
is_public_addr-v6 n false small unmapped = ground (arith, unmapped)

-- An address of 32 or 128 bits.
abbrev pub IsAddr : Addr → Type 0
IsAddr invalid = 0 < 1
IsAddr (v4 n) = n < 2 ^ 32
IsAddr (v6 n zone) = n < 2 ^ 128

abbrev pub is_global4 : ℕ → Bool
is_global4 n = not (any (within n) blocks4)

abbrev pub is_global6 : ℕ → Bool → Bool
is_global6 n zone = not (any (within n) blocks6 || not zone && any (within n) blocks6_unzoned)

-- Outside the blocks; an IPv4-mapped address is judged by its IPv4 form.
abbrev pub is_global : Addr → Bool
is_global invalid = false
is_global (v4 n) = is_global4 n
is_global (v6 n zone) = if n / 2 ^ 32 == 0xffff then is_global4 (n % 2 ^ 32) else is_global6 n zone

-- IsPublicAddr holds of exactly the addresses outside the blocks of loopback, private, link-local,
-- multicast, shared, benchmark, protocol and reserved addresses, and of the mapped addresses whose
-- IPv4 form is; :: and 64:ff9b::/96 are outside as well when the address has a zone.
pub is_public_addr-eq-is_global : (addr : Addr) → IsAddr addr → is_public_addr addr ≡ is_global addr
unfolding is_public_addr
is_public_addr-eq-is_global invalid h = refl
is_public_addr-eq-is_global (v4 n) h = is_public_addr-v4 n h
is_public_addr-eq-is_global (v6 n zone) h = elim (Bool-cases (n / 2 ^ 32 == 0xffff)) [
  | inl mapped ↦
      ap (λ b. is_public_unmapped (unmapped_if b n zone)) mapped
      ∙ is_public_addr-v4 (n % 2 ^ 32) (omega arith)
      ∙ sym (ap (λ b. if b then is_global4 (n % 2 ^ 32) else is_global6 n zone) mapped)
  | inr unmapped ↦
      is_public_addr-v6 n zone h unmapped
      ∙ sym (ap (λ b. if b then is_global4 (n % 2 ^ 32) else is_global6 n zone) unmapped)
]
