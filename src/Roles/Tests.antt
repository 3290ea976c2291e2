-- ===== src/Roles/Tests.antt =====
-- Runs of the role functions.
use talepanel.Base.{ℕ, ◌<◌, arith, ◌≡◌, refl, true, codes, fields}
use talepanel.Roles.Weight.{role_weight, role_moderator, role_user}
use talepanel.Roles.Console.{console_command_min_role, can_run_console_command}

abbrev plain : ℕ → ℕ
plain c = c

world_save : console_command_min_role plain (codes "  WORLD Save --all") ≡ role_user
unfolding console_command_min_role fields
world_save = refl

kick : can_run_console_command plain role_moderator (codes "/kick Eve") ≡ true
unfolding can_run_console_command fields role_weight
kick = refl

moderator_low : role_weight role_moderator < 3
unfolding role_weight
moderator_low = omega arith
