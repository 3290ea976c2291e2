-- ===== src/Requests/Naming.antt =====
-- The action and the target type of an audit record are made of the same segments.
use talepanel.Base.{
  ℕ, true, false, ◌==◌, List, [], ◌∷◌, ◌++◌, select, map, Text, codes, split, split_from, to_lower,
  ◌≡◌, refl, ap, ◌∙◌, arith, Bool-cases, inl, inr,
}
use talepanel.Address.Filename.{strip_slashes, kept_slash}
use talepanel.Requests.Action.{
  Segments, trim_prefix, one_slash, drop_slashes, trim_slashes, is_named, to_snake,
  joined_by_underscore, build_action_name, first_or, extract_target_type,
}

module _ (lib : Segments) where
  abbrev pub named_from : Text → Text → List Text
  named_from cur s = select (is_named lib) (split_from b'/' cur s)

  -- The segments of a path that are neither empty nor a UUID.
  abbrev pub named_segments : Text → List Text
  named_segments s = named_from [] s

  one_slash-named :
      (cur s : Text)
      → (named_from cur (one_slash false s) ≡ named_from cur s)
        × (named_from [] (one_slash true s) ≡ named_from [] s)
  unfolding one_slash split_from
  one_slash-named cur [] = (refl, refl)
  one_slash-named cur (c ∷ s) = elim (Bool-cases (c == b'/')) [
    | inl slash ↦
        (ground (arith, slash, one_slash-named [] s), ground (arith, slash, one_slash-named [] s))
    | inr other ↦ (
      ground (arith, other, one_slash-named (cur ++ c ∷ []) s),
      ground (arith, other, one_slash-named (c ∷ []) s),
    )
  ]

  drop_slashes-named : (s : Text) → named_segments (drop_slashes s) ≡ named_segments s
  unfolding drop_slashes split_from
  drop_slashes-named [] = refl
  drop_slashes-named (c ∷ s) = elim (Bool-cases (c == b'/')) [
    | inl slash ↦ ground (arith, slash, drop_slashes-named s)
    | inr other ↦ ground (arith, other)
  ]

  kept_slash-named :
      (cur : Text) (c : ℕ) (t : Text) → named_from cur (kept_slash c t) ≡ named_from cur (c ∷ t)
  unfolding split_from
  kept_slash-named cur c [] = elim (Bool-cases (c == b'/')) [
    | inl slash ↦ ground (arith, slash)
    | inr other ↦ ground (arith, other)
  ]
  kept_slash-named cur c (d ∷ t) = refl

  strip_slashes-named : (cur s : Text) → named_from cur (strip_slashes s) ≡ named_from cur s
  unfolding strip_slashes split_from
  strip_slashes-named cur [] = refl
  strip_slashes-named cur (c ∷ s) =
      kept_slash-named cur c (strip_slashes s) ∙ elim (Bool-cases (c == b'/')) [
        | inl slash ↦ ground (arith, slash, strip_slashes-named [] s)
        | inr other ↦ ground (arith, other, strip_slashes-named (cur ++ c ∷ []) s)
      ]

  trim_slashes-named : (s : Text) → named_segments (trim_slashes s) ≡ named_segments s
  trim_slashes-named s = strip_slashes-named [] (drop_slashes s) ∙ drop_slashes-named s

  -- The action is the method and, of the path behind /api/v1, the segments that are neither empty
  -- nor a UUID, in order, and the target type the first of them: extra slashes are of no account.
  pub action-eq-target :
      (method path : Text)
      → (build_action_name lib method path
          ≡ joined_by_underscore
              (map (to_lower lib.lower) method)
              (map (to_snake lib) (named_segments (trim_prefix path (codes "/api/v1")))))
        × (extract_target_type lib path
            ≡ first_or (codes "unknown") (named_segments (trim_prefix path (codes "/api/v1"))))
  unfolding build_action_name extract_target_type split
  action-eq-target method path =
      let rest = trim_prefix path (codes "/api/v1") in
      (
        ap
            (λ parts.
              joined_by_underscore (map (to_lower lib.lower) method) (map (to_snake lib) parts))
            (trim_slashes-named (one_slash false rest) ∙ (one_slash-named [] rest).0),
        ap (first_or (codes "unknown")) (trim_slashes-named rest),
      )
