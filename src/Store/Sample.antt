-- ===== src/Store/Sample.antt =====
-- Tables and a calm database for the runs of the services.
use talepanel.Base.{refl, ◌==◌, false, true, none, [], ◌∷◌}
use talepanel.Store.Tables.{User, object, Tables, no_rows, ServerInvitation, pending}
use talepanel.Store.Exec.{World, IsSteady}

-- The owner of the panel, the owner of the server 10, its member and a stranger.
abbrev pub root : User
root = record {
  id = 1;
  email = "root@x";
  username = "root";
  password_hash = "root-password";
  role = "owner";
  totp_secret = "";
  totp_enabled = false;
  created_at = 0;
  last_login_at = none;
  is_active = true;
}

abbrev pub alice : User
alice = record {
  id = 2;
  email = "alice@x";
  username = "alice";
  password_hash = "alice-password";
  role = "user";
  totp_secret = "";
  totp_enabled = false;
  created_at = 0;
  last_login_at = none;
  is_active = true;
}

abbrev pub bob : User
bob = record {
  id = 3;
  email = "bob@x";
  username = "bob";
  password_hash = "bob-password";
  role = "user";
  totp_secret = "";
  totp_enabled = false;
  created_at = 0;
  last_login_at = none;
  is_active = true;
}

abbrev pub eve : User
eve = record {
  id = 4;
  email = "eve@x";
  username = "eve";
  password_hash = "eve-password";
  role = "user";
  totp_secret = "";
  totp_enabled = false;
  created_at = 0;
  last_login_at = none;
  is_active = true;
}

-- Alice, who owns the server, invites Eve to it as a moderator.
abbrev pub invitation : ServerInvitation
invitation = record {
  id = 50;
  server_id = 10;
  inviter_id = 2;
  invitee_email = "eve@x";
  token = "t0";
  role = "moderator";
  permissions = [];
  status = pending;
  created_at = 0;
  expires_at = 5000;
}

abbrev pub sample : Tables
sample = record no_rows {
  users = root ∷ alice ∷ bob ∷ eve ∷ [];
  user_permissions = record { user_id = 3; perm_key = "server.start"; granted = true } ∷ [];
  permissions = "server.view" ∷ "server.start" ∷ [];
  role_permissions = record { role = "user"; perm_key = "server.view" } ∷ [];
  servers = record { id = 10; node_id = 80; owner_id = 2; status = "stopped" } ∷ [];
  server_members =
      record {
        server_id = 10;
        user_id = 3;
        role = "viewer";
        permissions = object (("server.view", true) ∷ ("server.stop", false) ∷ []);
      }
      ∷ [];
  server_invitations = invitation ∷ [];
}

abbrev pub calm : World
calm = record { db = sample; db_now = 1000; now = 1000; redis = []; faults = λ n. false; calls = 0 }

pub calm-IsSteady : IsSteady calm
calm-IsSteady = record { at_call = λ n. refl }

-- The first statement fails.
abbrev pub lossy : World
lossy = record calm { faults = λ n. n == 0 }
