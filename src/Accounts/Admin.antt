-- ===== src/Accounts/Admin.antt =====
-- The administration of accounts in services/auth_service.go: adminTargetChange with its three
-- changes, ChangePassword, and the sessions of a user.
use talepanel.Base.{
  ℕ, String, Bool, false, not, ◌&&◌, ◌==◌, Option, none, some, List, str_eq, ltb, any, find, select,
  count_where, update_where, if◌then◌else◌, map,
}
use talepanel.Store.Tables.{
  Uuid, Time, User, UserPermission, ServerRow, ServerMember, ServerInvitation, Enrollment,
  AlertRule, AlertEvent, ActivityLog, Session, Tables,
}
use talepanel.Store.Exec.{
  database, user_not_found, owner_protected, last_owner, wrong_current_password, hashing_failed,
  session_not_found, Exec, pure, raise, lift, ◌>>=◌, ◌>>◌, gets, statement, query, execute, write,
  attempt, transaction, found_or,
}
use talepanel.Roles.Weight.{role_owner, role_weight}
use talepanel.Accounts.Outside.{Outside}
use talepanel.Accounts.Password.{validate_password_for_role}
use talepanel.Accounts.Tokens.{has_user_id, find_user_by_id}
use talepanel.Accounts.Login.{set_revoked, revoke_sessions_of}
use talepanel.Accounts.Totp.{update_user}

abbrev pub is_owner : User → Bool
is_owner user = str_eq user.role role_owner

abbrev pub is_active_owner : User → Bool
is_active_owner user = is_owner user && user.is_active

-- SELECT COUNT(*) FROM users WHERE role = 'owner' AND is_active AND id <> $1
abbrev pub other_owners : Uuid → Tables → ℕ
other_owners id db =
    count_where (λ (u : User). is_active_owner u && not (has_user_id id u)) db.users

-- `removes_owner` of the target's role and state: whether the change takes an active owner away.
unfoldable pub check_owners : Uuid → Bool → Exec Unit
unfolding query
check_owners target_id removes =
    if removes
    then (do
      others ← query (other_owners target_id)
      if others == 0 then raise last_owner else pure tt)
    else pure tt

unfoldable pub check_target : String → Uuid → (String → Bool → Bool) → User → Exec Unit
unfolding check_owners
check_target caller_role target_id removes_owner target =
    if str_eq target.role role_owner && not (str_eq caller_role role_owner)
    then raise owner_protected
    else check_owners target_id (removes_owner target.role target.is_active)

-- Between Begin and Commit. Locking the owners is a statement that changes nothing.
unfoldable pub change_target : String → Uuid → (String → Bool → Bool) → Exec Unit → Exec Unit
unfolding statement query check_target
change_target caller_role target_id removes_owner change = do
  statement
  found ← query (λ db. find (has_user_id target_id) db.users)
  target ← found_or user_not_found found
  check_target caller_role target_id removes_owner target
  change

unfoldable pub admin_target_change : String → Uuid → (String → Bool → Bool) → Exec Unit → Exec Unit
unfolding transaction change_target
admin_target_change caller_role target_id removes_owner change =
    transaction (change_target caller_role target_id removes_owner change)

abbrev pub set_role : String → User → User
set_role role user = record user { role = role }

-- The type user_role has four values.
unfoldable pub write_role : Uuid → String → Exec Unit
unfolding statement role_weight
write_role target_id role = do
  statement
  if role_weight role == 0 then raise database else write (update_user target_id (set_role role))

abbrev pub removes_by_role : String → String → Bool → Bool
removes_by_role role target_role active =
    str_eq target_role role_owner && active && not (str_eq role role_owner)

unfoldable pub update_user_role : String → Uuid → String → Exec Unit
unfolding admin_target_change write_role
update_user_role caller_role target_id role =
    if str_eq role role_owner && not (str_eq caller_role role_owner)
    then raise owner_protected
    else admin_target_change caller_role target_id (removes_by_role role)
        (write_role target_id role)

abbrev pub set_active : Bool → User → User
set_active active user = record user { is_active = active }

abbrev pub removes_by_state : Bool → String → Bool → Bool
removes_by_state active target_role was_active =
    str_eq target_role role_owner && was_active && not active

unfoldable pub set_user_active : String → Uuid → Bool → Exec Unit
unfolding admin_target_change execute
set_user_active caller_role target_id active =
    admin_target_change caller_role target_id (removes_by_state active)
      (execute (update_user target_id (set_active active)))

abbrev pub is_id : Uuid → Option Uuid → Bool
is_id id none = false
is_id id (some other) = other == id

-- ON DELETE SET NULL
abbrev pub unless_id : Uuid → Option Uuid → Option Uuid
unless_id id none = none
unless_id id (some other) = if other == id then none else some other

abbrev pub forget_rules : Uuid → List AlertRule → AlertEvent → AlertEvent
forget_rules user_id rules event = record event {
  rule_id =
      if any (λ (r : AlertRule). r.user_id == user_id && is_id r.id event.rule_id) rules
      then none
      else event.rule_id;
}

abbrev pub forget_actor : Uuid → ActivityLog → ActivityLog
forget_actor user_id log = record log { user_id = unless_id user_id log.user_id }

-- What goes with a user, by the foreign keys of the modelled tables.
abbrev pub remove_user : Uuid → Tables → Tables
remove_user id db = record db {
  users = select (λ u. not (has_user_id id u)) db.users;
  sessions = select (λ (s : Session). not (s.user_id == id)) db.sessions;
  activity_logs = map (forget_actor id) db.activity_logs;
  user_permissions = select (λ (p : UserPermission). not (p.user_id == id)) db.user_permissions;
  server_members = select (λ (m : ServerMember). not (m.user_id == id)) db.server_members;
  server_invitations =
      select (λ (i : ServerInvitation). not (i.inviter_id == id)) db.server_invitations;
  node_enrollments = select (λ (e : Enrollment). not (is_id id e.created_by)) db.node_enrollments;
  alert_rules = select (λ (r : AlertRule). not (r.user_id == id)) db.alert_rules;
  alert_events = map (forget_rules id db.alert_rules) db.alert_events;
}

-- servers.owner_id has no ON DELETE action.
unfoldable pub delete_user_row : Uuid → Exec Unit
unfolding statement
delete_user_row id = do
  statement
  owns ← gets (λ w. any (λ (row : ServerRow). row.owner_id == id) w.db.servers)
  if owns then raise database else write (remove_user id)

unfoldable pub delete_account : Uuid → Exec Unit
unfolding execute delete_user_row
delete_account id = do execute (revoke_sessions_of id); delete_user_row id

abbrev pub removes_always : String → Bool → Bool
removes_always target_role active = str_eq target_role role_owner && active

unfoldable pub delete_user : String → Uuid → Exec Unit
unfolding admin_target_change delete_account
delete_user caller_role target_id =
    admin_target_change caller_role target_id removes_always (delete_account target_id)

abbrev pub set_password : String → User → User
set_password hash user = record user { password_hash = hash }

module _ (lib : Outside) where
  unfoldable pub store_password : Uuid → String → String → User → Exec Unit
  unfolding execute attempt
  store_password user_id salt new_password user = do
    lift (validate_password_for_role user.role new_password)
    hash ← found_or hashing_failed (lib.hash_password salt new_password)
    execute (update_user user_id (set_password hash))
    _ ← attempt (execute (revoke_sessions_of user_id))
    pure tt

  unfoldable pub change_password : Uuid → String → String → String → Exec Unit
  unfolding find_user_by_id store_password
  change_password user_id salt old_password new_password = do
    user ← find_user_by_id lib user_id
    if not (lib.compare_password user.password_hash old_password)
        then raise wrong_current_password
        else store_password user_id salt new_password user

abbrev pub is_open : Uuid → Time → Session → Bool
is_open user_id now session =
    session.user_id == user_id && not session.revoked && ltb now session.expires_at

-- The ORDER BY of the query is `sorted`.
unfoldable pub get_user_sessions : (List Session → List Session) → Uuid → Exec (List Session)
unfolding query
get_user_sessions sorted user_id = do
  now ← gets (λ w. w.db_now)
  query (λ db. sorted (select (is_open user_id now) db.sessions))

abbrev pub is_session_of : Uuid → Uuid → Session → Bool
is_session_of user_id session_id session = session.id == session_id && session.user_id == user_id

unfoldable pub revoke_session : Uuid → Uuid → Exec Unit
unfolding statement
revoke_session user_id session_id = do
  statement
  affected ← gets (λ w. count_where (is_session_of user_id session_id) w.db.sessions)
  write λ db. record db {
    sessions = update_where (is_session_of user_id session_id) set_revoked db.sessions;
  }
  if affected == 0 then raise session_not_found else pure tt
