-- ===== src/Lib.antt =====
-- Talepanel's API service (services/api): who may do what, and how that changes.
--
-- The service is a Go program: handlers behind a chain of middleware call services, and the services
-- keep all their state in one PostgreSQL database. This library models the core of it and proves
-- what makes it correct. Paths below are under services/api/internal.
--
-- Parts, and the files that model them:
--
--   Base            Boolean tests, lists, maps of Booleans, text and integers over the native numbers,
--                   with Go's functions of the package strings.
--   Store           The database. Store.Tables has a record for each table's rows (models/models.go
--                   and migrations), Store.Exec the programs over it: a service method is a function
--                   from a World to a result and the next World. Every statement may fail, as the
--                   World's `faults` decide by the number of the statement; a transaction restores
--                   the tables when it fails. Store.Laws has the rules of such programs. The SQL of a
--                   statement is written out as a function on the tables, constraints included: keys,
--                   foreign keys, CHECKs, and for nodes and enrollments the ranges of INTEGER and
--                   BIGINT. A text holds no NUL character.
--   Roles           models/models.go (RoleWeight), models/console_roles.go.
--   Accounts        services/auth_service.go and services/setup_service.go: Accounts.Login, Refresh,
--                   Totp, Register, Admin and Setup have the operations, Accounts.Tokens and
--                   Accounts.Password what they share. Accounts.Calls has them as calls, and
--                   Accounts.Stable shows for all of them at once that they keep a property of the
--                   tables which their single changes keep.
--   Permissions     services/permission_service.go (has_permission, has_server_permission,
--                   missing_server_permissions, set_user_permission, delete_user_permission,
--                   server_member_role_permissions), middleware/require_permission.go and RequireRole
--                   of middleware/auth.go (Permissions.Guard). Permissions.Rule states the access
--                   rule on the tables alone.
--   Invitations     services/invitation_service.go: create, accept, decline and revoke.
--                   Invitations.History has the operations as steps and what they may do to a row.
--   Address         daemon/host.go: the validation of hosts and ports (Address.Validate) and the file
--                   names of downloads (Address.Filename, on code points); and validateNodeAddress of
--                   services/node_service.go.
--   Enrollment      services/enrollment_service.go: create_enrollment and redeem.
--   Nodes           services/node_service.go, and closeOpenSessions of services/player_service.go
--                   (Nodes.Players). Nodes.Calls has the operations as calls.
--   Cron            services/cron.go: Cron.Field parses a field, Cron.Next an expression, and searches.
--   Webhook         alerting/safehttp.go: Webhook.Addr is IsPublicAddr, Webhook.Validate
--                   ValidateWebhookURL and safeDialControl; Webhook.Ranges lists the address blocks.
--   Alerts          services/alert_service.go: Alerts.Rules has the operations of a caller,
--                   Alerts.Fire EvaluateAndFire and EvaluateNodeOffline.
--   Requests        middleware/ratelimit.go, bodylimit.go, auth.go (AuthRequired) and daemon_auth.go;
--                   Requests.Audit, Requests.Redaction and Requests.Action (names, on code
--                   points) are middleware/audit.go.
--
-- The permission checks are used by the guards, the invitations and the alert rules; the address
-- checks by the enrollment; the webhook checks by the alert rules. What is outside the repository is
-- an argument of the definitions that use it: the Unicode tables, the bytes of crypto/rand and the new
-- identifiers, SHA-256, bcrypt, JWTs, TOTP and AES (the record Accounts.Outside), uuid.Parse,
-- netip.ParseAddr, url.Parse, the package mime, the sort of a query, and the calendar of a time zone.
-- A hypothesis on one of them is named where it is used.
--
-- Numbers: Go's int is a mathematical integer, but in the loop of parseCronField, whose sum is written
-- out in 64 bits. A finite float64 is its multiple of 2^-1074. A time is a number of nanoseconds.
-- Fuel: a cron field loops at most 60 rounds (about 120 if it wraps) and has 128; the next minute
-- has 367 * 24 * 60 + 1 rounds, one more than there are minutes before its limit. Other loops are
-- by structural recursion.
--
-- Redis is a list of entries with their expiry (Store.Redis); a command of it fails as a statement
-- does. Logout writes the blacklist there that AuthRequired reads. A refresh that finds its token
-- rotated waits up to twenty times for the result; what becomes of the world meanwhile is an argument
-- (Accounts.Refresh.Waits).
--
-- Not modelled: the web application, the node daemon and the game mod (other languages), and of the
-- API service the router, the handlers and the other services, the TLS and encryption code, and
-- plain input and output; of the modelled services what only reads for a listing or a chart, and the
-- insert of an audit record with its retry. A method runs alone: two requests interleave only between
-- methods, as lists of operations.

pub mod Base
pub mod Store
pub mod Roles
pub mod Accounts
pub mod Permissions
pub mod Invitations
pub mod Nodes
pub mod Address
pub mod Enrollment
pub mod Cron
pub mod Webhook
pub mod Alerts
pub mod Requests
