-- ===== src/Accounts/Password.antt =====
-- The formats of services/auth_service.go: validatePasswordForRole, emailRegex and usernameRegex.
-- A text is a list of code points.
use talepanel.Base.{
  ℕ, String, Bool, not, ◌&&◌, ◌||◌, ◌==◌, some, [], ◌∷◌, str_eq, ltb, any, length, codes,
  if◌then◌else◌, matches, once, at_least, is_digit, is_letter,
}
use talepanel.Store.Exec.{Result, ok, err, password_too_short, weak_password_for_role}
use talepanel.Roles.Weight.{role_owner, role_admin}

abbrev pub is_privileged : String → Bool
is_privileged role = str_eq role role_owner || str_eq role role_admin

abbrev pub min_length : String → ℕ
min_length role = if is_privileged role then 12 else 8

abbrev pub is_symbol : ℕ → Bool
is_symbol c = not (is_digit c) && not (is_letter c)

unfoldable pub has_digit : String → Bool
has_digit password = any is_digit (codes password)

unfoldable pub has_symbol : String → Bool
has_symbol password = any is_symbol (codes password)

unfoldable pub rune_count : String → ℕ
rune_count s = length (codes s)

unfoldable pub validate_password_for_role : String → String → Result (Unit {0})
unfolding rune_count has_digit has_symbol
validate_password_for_role role password =
    if ltb (rune_count password) (min_length role)
    then err (password_too_short (min_length role))
    else (if not (is_privileged role)
        then ok tt
        else (if not (has_digit password) || not (has_symbol password)
            then err weak_password_for_role
            else ok tt))

-- ^[a-zA-Z0-9._%+\-]+@[a-zA-Z0-9.\-]+\.[a-zA-Z]{2,}$
unfoldable pub email_matches : String → Bool
unfolding matches
email_matches email =
    matches
      (at_least 1 (λ c.
          is_letter c
          || is_digit c
          || c == b'.'
          || c == b'_'
          || c == b'%'
          || c == b'+'
          || c == b'-')
        ∷ once b'@'
        ∷ at_least 1 (λ c. is_letter c || is_digit c || c == b'.' || c == b'-')
        ∷ once b'.'
        ∷ at_least 2 is_letter
        ∷ [])
      (codes email)

-- ^[a-zA-Z0-9_]{3,20}$
unfoldable pub username_matches : String → Bool
unfolding matches
username_matches username =
    matches
      (record { allowed = λ c. is_letter c || is_digit c || c == b'_'; least = 3; most = some 20 }
        ∷ [])
      (codes username)
