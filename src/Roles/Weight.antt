-- ===== src/Roles/Weight.antt =====
-- models.RoleWeight. A role is the text that the database holds.
use talepanel.Base.{ℕ, String, Bool, str_eq, leb, if◌then◌else◌}

abbrev pub role_user : String
role_user = "user"

abbrev pub role_moderator : String
role_moderator = "moderator"

abbrev pub role_admin : String
role_admin = "admin"

abbrev pub role_owner : String
role_owner = "owner"

unfoldable pub role_weight : String → ℕ
role_weight role =
    if str_eq role role_owner
    then 4
    else (if str_eq role role_admin
        then 3
        else (if str_eq role role_moderator then 2 else (if str_eq role role_user then 1 else 0)))

-- `models.RoleWeight(role) >= models.RoleWeight(models.RoleAdmin)`
unfoldable pub is_staff : String → Bool
unfolding role_weight
is_staff role = leb (role_weight role_admin) (role_weight role)
