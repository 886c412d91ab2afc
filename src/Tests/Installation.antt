-- ===== src/Tests/Installation.antt =====
-- A concrete installation: its platform, its settings, its tables and a state of it.
use Prim.Native.String as Text
use django_ninja_rbac_authen.Prelude.{
  if◌then◌else◌, ◌+◌, ◌*◌, true, false, none, some, [], ◌∷◌, str_eq,
}
use django_ninja_rbac_authen.Decimal.{str_of}
use django_ninja_rbac_authen.Platform.{Platform, Settings, Payload, Deployment}
use django_ninja_rbac_authen.RefreshTokens.{RefreshToken, TokenTable}
use django_ninja_rbac_authen.Users.{User}
use django_ninja_rbac_authen.Rbac.{Permission, RbacTables}
use django_ninja_rbac_authen.AuditLogs.{AuditContext}
use django_ninja_rbac_authen.World.{World, Db}
use django_ninja_rbac_authen.Tests.Redis.{list_server}
use django_ninja_rbac_authen.Tests.Jwt.{plain_jwt}

-- The clock goes on by a second with each call, and everything is up.
abbrev pub demo_platform : Platform
demo_platform = record {
  now = λ n. 1700000000000000 + n * 1000000;
  token_urlsafe = λ n. Text.◌++◌ "token-" (str_of n);
  uuid4 = λ n. Text.◌++◌ "uuid-" (str_of n);
  redis_up = λ n. true;
  audit_up = λ n. true;
  sha256_hexdigest = λ s. Text.◌++◌ "sha256:" s;
  make_password = λ n s. Text.◌++◌ "hash:" s;
  check_password = λ s h. str_eq (Text.◌++◌ "hash:" s) h;
  base_normalize_email = λ s. s;
  lower = λ s. s;
  strip = λ s. s;
  db_lower = λ s. s;
  email_str = λ s. if str_eq s "root" then none else some s;
  ip_version = λ s. some 4;
  ip_network = λ s n. s;
}

abbrev pub demo_settings : Settings
demo_settings = record {
  default_user_role = "user";
  jwt_secret = "secret";
  access_token_lifetime = 900000000;
  refresh_token_lifetime = 604800000000;
  refresh_bind_device = true;
  refresh_bind_ip = true;
}

abbrev pub demo : Deployment
demo = record {
  settings = demo_settings;
  platform = demo_platform;
  redis = list_server;
  jwt = plain_jwt;
}

abbrev pub ada : User
ada = record {
  id = 1;
  email = "ada@example.com";
  password = "hash:lovelace";
  is_active = true;
  is_staff = false;
  is_superuser = false;
  date_joined = 1600000000000000;
}

-- A user that was switched off.
abbrev pub bob : User
bob = record {
  id = 2;
  email = "bob@example.com";
  password = "hash:builder";
  is_active = false;
  is_staff = false;
  is_superuser = false;
  date_joined = 1600000000000000;
}

-- The first token of Ada's family, already exchanged.
abbrev pub spent_token : RefreshToken
spent_token = record {
  id = 1;
  user_id = 1;
  token_hash = "sha256:spent";
  family_id = "family-1";
  parent_id = none;
  device_hash = some "sha256:browser";
  issued_ip = some "10.0.0.1";
  expires_at = 1800000000000000;
  revoked_at = some 1690000000000000;
}

abbrev pub live_token : RefreshToken
live_token = record {
  id = 2;
  user_id = 1;
  token_hash = "sha256:live";
  family_id = "family-1";
  parent_id = some 1;
  device_hash = some "sha256:browser";
  issued_ip = some "10.0.0.1";
  expires_at = 1800000000000000;
  revoked_at = none;
}

abbrev pub late_token : RefreshToken
late_token = record {
  id = 3;
  user_id = 2;
  token_hash = "sha256:late";
  family_id = "family-2";
  parent_id = none;
  device_hash = none;
  issued_ip = none;
  expires_at = 1650000000000000;
  revoked_at = none;
}

-- A live token of the user that was switched off.
abbrev pub bobs_token : RefreshToken
bobs_token = record {
  id = 4;
  user_id = 2;
  token_hash = "sha256:bob";
  family_id = "family-3";
  parent_id = none;
  device_hash = none;
  issued_ip = none;
  expires_at = 1800000000000000;
  revoked_at = none;
}

abbrev pub demo_tokens : TokenTable
demo_tokens = record { rows = spent_token ∷ live_token ∷ late_token ∷ bobs_token ∷ []; next_id = 5 }

abbrev pub read_audit : Permission
read_audit = record { id = 1; code = "audit.read" }

abbrev pub demo_rbac : RbacTables
demo_rbac = record {
  roles = record { id = 1; name = "admin" } ∷ record { id = 2; name = "user" } ∷ [];
  permissions = read_audit ∷ record { id = 2; code = "users.write" } ∷ [];
  user_roles = record { user_id = 1; role_id = 1 } ∷ [];
  role_permissions = record { role_id = 1; permission_id = 2 } ∷ [];
}

abbrev pub demo_db : Db
demo_db = record {
  users = record { rows = ada ∷ bob ∷ []; next_id = 3 };
  rbac = demo_rbac;
  tokens = demo_tokens;
  audit = record { rows = []; next_id = 1 };
}

abbrev pub demo_world : World demo
demo_world = record { db = demo_db; redis = []; calls = 1 }

-- A request from Ada's browser, and one from elsewhere.
abbrev pub from_browser : AuditContext
from_browser = record {
  actor_id = none;
  actor_email = none;
  ip = some "10.0.0.2";
  user_agent = some "browser";
  request_id = some "request-1";
}

abbrev pub from_elsewhere : AuditContext
from_elsewhere = record {
  actor_id = none;
  actor_email = none;
  ip = some "10.9.9.9";
  user_agent = some "robot";
  request_id = none;
}

-- An access token of Ada's, issued in the second of the state's clock.
abbrev pub adas_claims : Payload
adas_claims = record {
  sub = "1";
  exp = 1700000900000000;
  iat = 1700000000000000;
  jti = "uuid-0";
  roles = "admin" ∷ [];
  perms = "users.write" ∷ [];
}
