-- ===== src/Roles/Console.antt =====
-- models/console_roles.go. `other` is the lower-casing of characters beyond ASCII.
use talepanel.Base.{
  ℕ, String, Bool, false, ◌&&◌, ◌||◌, str_eq, ◌==◌, leb, any, List, [], ◌∷◌, map, if◌then◌else◌,
  Text, codes, text_eq, fields, to_lower,
}
use talepanel.Store.Tables.{User, Uuid}
use talepanel.Roles.Weight.{role_user, role_moderator, role_admin, role_owner, role_weight}

abbrev pub moderator_console_verbs : List Text
moderator_console_verbs =
    codes "kick"
    ∷ codes "ban"
    ∷ codes "unban"
    ∷ codes "whitelist"
    ∷ codes "time"
    ∷ codes "weather"
    ∷ codes "teleport"
    ∷ codes "say"
    ∷ []

-- `moderatorConsoleVerbs[verb]`
unfoldable pub is_moderator_verb : Text → Bool
is_moderator_verb verb = any (text_eq verb) moderator_console_verbs

-- `strings.TrimPrefix(s, "/")`
pub trim_slash : Text → Text
trim_slash [] = []
trim_slash (c ∷ s) = if c == b'/' then s else c ∷ s

-- `len(fields) > 1 && fields[1] == "save"`, given what follows the verb.
unfoldable pub saves : List Text → Bool
saves [] = false
saves (word ∷ _) = text_eq word (codes "save")

unfoldable pub verb_min_role : Text → List Text → String
unfolding is_moderator_verb saves
verb_min_role verb rest =
    if text_eq verb (codes "help")
    then role_user
    else (if text_eq verb (codes "world") && saves rest
        then role_user
        else (if is_moderator_verb verb then role_moderator else role_admin))

unfoldable pub fields_min_role : List Text → String
unfolding verb_min_role trim_slash
fields_min_role [] = role_admin
fields_min_role (first ∷ rest) = verb_min_role (trim_slash first) rest

module _ (other : ℕ → ℕ) where
  unfoldable pub console_command_min_role : Text → String
  unfolding fields_min_role
  console_command_min_role cmd = fields_min_role (fields (map (to_lower other) cmd))

  unfoldable pub can_run_console_command : String → Text → Bool
  unfolding console_command_min_role
  can_run_console_command role cmd =
      leb (role_weight (console_command_min_role cmd)) (role_weight role)

unfoldable pub console_role : User → Uuid → String
console_role user server_owner_id =
    if str_eq user.role role_owner || str_eq user.role role_admin || user.id == server_owner_id
    then role_admin
    else user.role
