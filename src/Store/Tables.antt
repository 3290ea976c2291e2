-- ===== src/Store/Tables.antt =====
-- The tables that the services read and write (services/api/migrations), a list of rows each.
-- Identifiers (UUIDs) are numbers that are only compared; times are nanoseconds.
use talepanel.Base.{ℕ, ℤ, String, Bool, Option, List, [], BoolMap, ◌*◌}

abbrev pub Uuid : Type 0
Uuid = ℕ

abbrev pub Time : Type 0
Time = ℕ

abbrev pub second : ℕ
second = 1000000000

abbrev pub minute : ℕ
minute = 60 * second

abbrev pub hour : ℕ
hour = 60 * minute

-- models.User without its profile. A secret of "" is SQL NULL; it is encrypted in the table.
pub record User : Type 0 where
  pub id : Uuid
  pub email : String
  pub username : String
  pub password_hash : String
  pub role : String
  pub totp_secret : String
  pub totp_enabled : Bool
  pub created_at : Time
  pub last_login_at : Option Time
  pub is_active : Bool

-- A user as a query without `totp_secret` returns it.
abbrev pub without_secret : User → User
without_secret user = record user { totp_secret = "" }

-- services.LoginResult; an empty field is left out of its JSON.
pub record LoginResult : Type 0 where
  pub access_token : String
  pub refresh_token : String
  pub user : Option User
  pub requires_totp : Bool
  pub partial_token : String

-- models.Session
pub record Session : Type 0 where
  pub id : Uuid
  pub user_id : Uuid
  pub token_hash : String
  pub ip_address : String
  pub user_agent : String
  pub created_at : Time
  pub expires_at : Time
  pub revoked : Bool

-- A row of activity_logs, without its payload.
pub record ActivityLog : Type 0 where
  pub id : Uuid
  pub user_id : Option Uuid
  pub action : String
  pub target_type : String
  pub target_id : Option Uuid
  pub ip_address : String
  pub created_at : Time

pub record UserPermission : Type 0 where
  pub user_id : Uuid
  pub perm_key : String
  pub granted : Bool

pub record RolePermission : Type 0 where
  pub role : String
  pub perm_key : String

pub record ServerRow : Type 0 where
  pub id : Uuid
  pub node_id : Uuid
  pub owner_id : Uuid
  pub status : String

-- models.Player and a row of player_sessions, as far as playtime is credited.
pub record Player : Type 0 where
  pub id : Uuid
  pub server_id : Uuid
  pub playtime_s : ℕ

pub record PlayerSession : Type 0 where
  pub player_id : Uuid
  pub joined_at : Time
  pub left_at : Option Time
  pub duration_s : Option ℕ

-- A row of node_commands, without its payload.
pub record NodeCommand : Type 0 where
  pub id : Uuid
  pub node_id : Uuid
  pub command_type : String
  pub status : String
  pub succeeded : Option Bool
  pub created_at : Time
  pub acked_at : Option Time

-- What a JSONB column yields when it is decoded into a `map[string]bool`: SQL NULL, an object of
-- Booleans, or a value that does not decode.
pub data PermissionsColumn : Type 0 where
  null malformed : PermissionsColumn
  object : BoolMap → PermissionsColumn

pub record ServerMember : Type 0 where
  pub server_id : Uuid
  pub user_id : Uuid
  pub role : String
  pub permissions : PermissionsColumn

pub data InvitationStatus : Type 0 where
  -- no operation writes `expired`
  pending accepted declined expired revoked : InvitationStatus

-- models.ServerInvitation
pub record ServerInvitation : Type 0 where
  pub id : Uuid
  pub server_id : Uuid
  pub inviter_id : Uuid
  pub invitee_email : String
  pub token : String
  pub role : String
  pub permissions : BoolMap
  pub status : InvitationStatus
  pub created_at : Time
  pub expires_at : Time

-- Enrollment, a row of node_enrollments.
pub record Enrollment : Type 0 where
  pub id : Uuid
  pub token_hash : String
  pub node_name : String
  pub total_cpu : Option ℤ
  pub total_ram_mb : Option ℤ
  pub total_disk_mb : Option ℤ
  pub max_servers : ℤ
  pub created_by : Option Uuid
  pub created_at : Time
  pub expires_at : Time
  pub used_at : Option Time
  pub node_id : Option Uuid

-- models.Node, with the token hash of its row. A location of "" is SQL NULL.
pub record Node : Type 0 where
  pub id : Uuid
  pub name : String
  pub fqdn : String
  pub public_address : Option String
  pub port : ℤ
  pub total_cpu : ℤ
  pub total_ram_mb : ℤ
  pub total_disk_mb : ℤ
  pub max_servers : ℤ
  pub token_hash : String
  pub status : String
  pub last_heartbeat : Option Time
  pub location : String
  pub mtls_enabled : Bool
  pub cert_serial : Option String
  pub cert_not_after : Option Time

-- A finite float64, as its multiple of 2^-1074. Only comparisons are made.
abbrev pub Float : Type 0
Float = ℤ

-- models.AlertRule, with the webhook of its row.
pub record AlertRule : Type 0 where
  pub id : Uuid
  pub server_id : Option Uuid
  pub user_id : Uuid
  pub kind : String
  pub threshold : Option Float
  pub channels : List String
  pub webhook_url : String
  pub enabled : Bool
  pub created_at : Time

-- models.AlertEvent, as far as the service sets it.
pub record AlertEvent : Type 0 where
  pub id : Uuid
  pub rule_id : Option Uuid
  pub server_id : Option Uuid
  pub node_id : Option Uuid
  pub kind : String
  pub severity : String
  pub title : String
  pub resolved : Bool
  pub resolved_at : Option Time
  pub created_at : Time

pub record Tables : Type 0 where
  pub users : List User
  pub sessions : List Session
  pub activity_logs : List ActivityLog
  pub user_permissions : List UserPermission
  pub permissions : List String
  pub role_permissions : List RolePermission
  pub servers : List ServerRow
  pub server_members : List ServerMember
  pub server_invitations : List ServerInvitation
  pub node_enrollments : List Enrollment
  pub nodes : List Node
  pub node_commands : List NodeCommand
  pub players : List Player
  pub player_sessions : List PlayerSession
  pub alert_rules : List AlertRule
  pub alert_events : List AlertEvent

abbrev pub no_rows : Tables
no_rows = record {
  users = [];
  sessions = [];
  activity_logs = [];
  user_permissions = [];
  permissions = [];
  role_permissions = [];
  servers = [];
  server_members = [];
  server_invitations = [];
  node_enrollments = [];
  nodes = [];
  node_commands = [];
  players = [];
  player_sessions = [];
  alert_rules = [];
  alert_events = [];
}
