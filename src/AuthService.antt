-- ===== src/AuthService.antt =====
-- apps/authz/services/auth.py with the helpers of security/passwords.py and security/binding.py:
-- registration, login, refresh rotation and logout.
pub mod Enrolment
pub mod Login
pub mod Opening
use django_ninja_rbac_authen.Prelude.{
  ℕ, suc, ◌+◌, ◌/◌, Bool, true, false, not, ◌&&◌, ◌||◌, Option, none, some, List, String, ◌==◌,
  str_eq, leb, is_none, opt_str_eq, truthy, py_or, if◌then◌else◌,
}
use django_ninja_rbac_authen.Errors.{
  Error, integrity_error, runtime_error, raised, invalid_credentials, token_reused,
  refresh_token_binding_mismatch, invalid_token, email_already_exists,
}
use django_ninja_rbac_authen.Effects.{Result, ok, err, pure, raise, when, try_except, ◌>>=◌, ◌>>◌}
use django_ninja_rbac_authen.Decimal.{str_of}
use django_ninja_rbac_authen.Metadata.{Value, null, str, Metadata, end, field}
use django_ninja_rbac_authen.Platform.{Deployment}
use django_ninja_rbac_authen.Blocklist.{block_token, revoke_user}
use django_ninja_rbac_authen.RefreshTokens.{
  RefreshTokenDto, NewToken, Rotation, RefreshRotationResult, Outcome, rotated, missing, expired,
  reused, binding_mismatch, acreate, arotate, arevoke, arevoke_user, aget_by_hash,
}
use django_ninja_rbac_authen.Users.{UserDto, CredentialsDto, aget_credentials}
use django_ninja_rbac_authen.Users
use django_ninja_rbac_authen.Rbac.{
  RoleDto, aget_role_by_name, aget_user_role_names, aget_user_permission_codes,
}
use django_ninja_rbac_authen.AuditLogs.{
  AuditContext, AuditAction, login_success, login_failure, logout, register, token_refreshed,
  token_reuse_detected, token_binding_mismatch, token_ip_changed,
}
use django_ninja_rbac_authen.Jwt.{payload_of}
use django_ninja_rbac_authen.World.{
  Service, read_clock, draw_token, draw_uuid, hash_password, on_tokens, on_users, on_rbac, on_db,
  on_redis,
}
use django_ninja_rbac_authen.Registration.{acreate_user_with_role}
use django_ninja_rbac_authen.AuditService.{Event, AuditOutcome, success, failure, record_event}

pub record TokenPair : Type 0 where
  pub access_token : String
  pub refresh_token : String

abbrev pub with_actor : AuditContext → ℕ → AuditContext
with_actor c id = record c { actor_id = some id }

abbrev pub with_identity : AuditContext → ℕ → String → AuditContext
with_identity c id email = record c { actor_id = some id; actor_email = some email }

abbrev pub event : AuditAction → AuditOutcome → Option Metadata → Event
event a o m = record { action = a; target_type = none; target_id = none; outcome = o; metadata = m }

abbrev pub single : String → String → Option Metadata
single k v = some (field k (str v) end)

abbrev is_integrity_error : Error → Bool
is_integrity_error integrity_error = true
is_integrity_error _ = false

abbrev pub text_or_null : Option String → Value
text_or_null none = null
text_or_null (some s) = str s

module _ (d : Deployment) where
  open d use {platform, settings, redis, jwt}

  -- `_hash_refresh_token`
  abbrev pub hash_refresh_token : String → String
  hash_refresh_token raw = platform.sha256_hexdigest raw

  -- `max(1, int(ACCESS_TOKEN_LIFETIME.total_seconds()))`
  abbrev pub access_token_ttl_seconds : ℕ
  access_token_ttl_seconds =
      let n = settings.access_token_lifetime / 1000000 in if leb n 1 then 1 else n

  -- `device_hash` of security/binding.py
  unfoldable pub device_hash : Option String → Option String
  device_hash none = none
  device_hash (some agent) =
      let normalized = platform.lower (platform.strip agent) in
      if str_eq agent ""
      then none
      else if str_eq normalized ""
      then none
      else some (platform.sha256_hexdigest normalized)

  -- `_DUMMY_PASSWORD_HASH`, made when the process starts
  abbrev pub dummy_password_hash : String
  dummy_password_hash = platform.make_password 0 "not-a-real-password"

  -- `encoded or _DUMMY_PASSWORD_HASH`: the hash that the check runs on.
  abbrev pub checked_hash : Option String → String
  checked_hash none = dummy_password_hash
  checked_hash (some h) = if str_eq h "" then dummy_password_hash else h

  -- `verify_password`
  unfoldable pub verify_password : String → Option String → Bool
  verify_password password encoded =
      let is_valid = platform.check_password password (checked_hash encoded) in
      if truthy encoded then is_valid else false

  abbrev pub mask_ip : Option String → Option String
  mask_ip none = none
  mask_ip (some value) = elim (platform.ip_version value) [
    | none ↦ none
    | some version ↦ some (platform.ip_network value (if version == 4 then 24 else 64))
  ]

  -- `encode_access_token` with its defaults
  unfoldable pub encode_access_token : String → List String → List String → Service d String
  encode_access_token subject roles permissions = do
    issued_at ← read_clock d
    jti ← draw_uuid d
    pure (
        jwt.encode
          (payload_of subject roles permissions settings.access_token_lifetime issued_at jti)
          settings.jwt_secret)

  assigned_role : Option RoleDto → Service d RoleDto
  assigned_role none = raise (runtime_error "The configured default user role does not exist")
  assigned_role (some r) = pure r

  unfoldable pub register_user : String → String → AuditContext → Bool → Service d UserDto
  unfolding assigned_role aget_role_by_name acreate_user_with_role record_event
  register_user email password context record_registration = do
    found ← on_rbac d (aget_role_by_name settings.default_user_role)
    default_role ← assigned_role found
    password_hash ← hash_password d password
    joined ← read_clock d
    user ←
        try_except
          (on_db d (acreate_user_with_role platform joined email password_hash default_role.id))
          is_integrity_error (λ _. raise (raised email_already_exists))
    when record_registration
        (record_event d (event register success none) (with_identity context user.id user.email))
    pure user

  issue_token_pair : ℕ → String → Option ℕ → AuditContext → Service d TokenPair
  unfolding aget_user_role_names aget_user_permission_codes acreate device_hash encode_access_token
  issue_token_pair user_id family_id parent_id context = do
    roles ← on_rbac d (aget_user_role_names user_id)
    permissions ← on_rbac d (aget_user_permission_codes user_id)
    raw ← draw_token d
    now ← read_clock d
    on_tokens d (
        acreate (record {
          user_id = user_id;
          token_hash = hash_refresh_token raw;
          family_id = family_id;
          parent_id = parent_id;
          expires_at = now + settings.refresh_token_lifetime;
          device_hash = device_hash context.user_agent;
          issued_ip = context.ip;
        }))
    access ← encode_access_token (str_of user_id) roles permissions
    pure (record { access_token = access; refresh_token = raw })

  refuse_login : String → AuditContext → Service d TokenPair
  unfolding record_event
  refuse_login email context = do
    record_event d (event login_failure failure (single "email" email)) context
    raise (raised invalid_credentials)

  accept_login : CredentialsDto → AuditContext → Service d TokenPair
  unfolding issue_token_pair record_event
  accept_login credentials context = do
    family ← draw_uuid d
    pair ← issue_token_pair credentials.id family none context
    record_event d (event login_success success none)
        (with_identity context credentials.id credentials.email)
    pure pair

  abbrev hash_of : Option CredentialsDto → Option String
  hash_of none = none
  hash_of (some c) = some c.password_hash

  -- `login` from the point where the credentials are known and the password is checked.
  decide_login : String → AuditContext → Option CredentialsDto → Bool → Service d TokenPair
  unfolding refuse_login accept_login
  decide_login email context none is_valid = refuse_login email context
  decide_login email context (some c) is_valid =
      if not c.is_active || not is_valid then refuse_login email context else accept_login c context

  unfoldable pub login : String → String → AuditContext → Service d TokenPair
  unfolding decide_login aget_credentials verify_password
  login email password context = do
    credentials ← on_users d (aget_credentials platform email)
    decide_login email context credentials (verify_password password (hash_of credentials))
