-- ===== src/Roles/Allowlist.antt =====
-- models/console_roles.go: the console commands of those who are not admins.
use talepanel.Base.{
  ℕ, ◌<◌, String, Bool, true, false, ◌&&◌, ◌||◌, List, [], ◌∷◌, any, map, leb, if◌then◌else◌, Text,
  codes, text_eq, fields, to_lower, ◌≡◌, refl, arith,
}
use talepanel.Roles.Weight.{role_weight, role_admin, role_moderator, role_user}
use talepanel.Roles.Console.{
  moderator_console_verbs, trim_slash, saves, verb_min_role, fields_min_role,
  console_command_min_role, can_run_console_command, is_moderator_verb,
}

-- The words of a command are `help`, or begin with `world save`.
abbrev pub is_open : List Text → Bool
is_open [] = false
is_open (first ∷ rest) =
    text_eq (trim_slash first) (codes "help")
    || text_eq (trim_slash first) (codes "world") && saves rest

-- Or begin with one of the moderators' verbs.
abbrev pub is_listed : List Text → Bool
is_listed [] = false
is_listed (first ∷ rest) =
    is_open (first ∷ rest) || any (text_eq (trim_slash first)) moderator_console_verbs

weights :
    (help save verb : Bool) (n : ℕ)
    → leb
        (role_weight (
          if help
          then role_user
          else (if save then role_user else (if verb then role_moderator else role_admin))))
        n
      ≡ true
    → n < 3
    → (((help || save) || verb) ≡ true) × ((leb 2 n || (help || save)) ≡ true)
unfolding role_weight
weights true save verb n runs low = (refl, ground arith)
weights false true verb n runs low = (refl, ground arith)
weights false false true n runs low = (refl, ground arith)
weights false false false n runs low = ground arith

words_allowed :
    (words : List Text) (n : ℕ)
    → leb (role_weight (fields_min_role words)) n ≡ true
    → n < 3
    → (is_listed words ≡ true) × ((leb 2 n || is_open words) ≡ true)
unfolding fields_min_role verb_min_role is_moderator_verb role_weight
words_allowed [] n runs low = ground arith
words_allowed (first ∷ rest) n runs low =
    weights (text_eq (trim_slash first) (codes "help"))
      (text_eq (trim_slash first) (codes "world") && saves rest)
      (any (text_eq (trim_slash first)) moderator_console_verbs) n runs low

-- Below an admin a role may send only `help`, `world save` and the commands of the moderators' list,
-- and below a moderator only the first two, whatever a command's case and spaces.
pub console_allowlist :
    (other : ℕ → ℕ) (role : String) (cmd : Text)
    → can_run_console_command other role cmd ≡ true
    → role_weight role < 3
    → (is_listed (fields (map (to_lower other) cmd)) ≡ true)
      × ((leb 2 (role_weight role) || is_open (fields (map (to_lower other) cmd))) ≡ true)
unfolding can_run_console_command console_command_min_role
console_allowlist other role cmd runs low =
    words_allowed (fields (map (to_lower other) cmd)) (role_weight role) runs low
