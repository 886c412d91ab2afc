-- ===== src/Sessions.antt =====
-- apps/authz/services/auth.py: `refresh`, `logout`, `logout_all` and `aget_active_email`.
pub mod Theft
pub mod Refresh
pub mod Revocation
pub mod Logout
pub mod Single
use django_ninja_rbac_authen.Prelude.{
  ℕ, ◌+◌, Bool, true, false, not, ◌&&◌, Option, none, some, String, is_none, opt_str_eq,
  if◌then◌else◌,
}
use django_ninja_rbac_authen.Errors.{
  runtime_error, raised, token_reused, refresh_token_binding_mismatch, invalid_token,
}
use django_ninja_rbac_authen.Effects.{Result, ok, err, pure, raise, when, ◌>>=◌, ◌>>◌}
use django_ninja_rbac_authen.Decimal.{str_of}
use django_ninja_rbac_authen.Metadata.{str, end, field}
use django_ninja_rbac_authen.Platform.{Deployment}
use django_ninja_rbac_authen.Blocklist.{block_token, revoke_user}
use django_ninja_rbac_authen.RefreshTokens.{
  RefreshTokenDto, RefreshRotationResult, Outcome, rotated, missing, expired, reused,
  binding_mismatch, arotate, arevoke, arevoke_user, aget_by_hash,
}
use django_ninja_rbac_authen.Users.{UserDto}
use django_ninja_rbac_authen.Users
use django_ninja_rbac_authen.Rbac.{aget_user_role_names, aget_user_permission_codes}
use django_ninja_rbac_authen.AuditLogs.{
  AuditAction, AuditContext, logout, token_refreshed, token_reuse_detected, token_binding_mismatch,
  token_ip_changed,
}
use django_ninja_rbac_authen.World.{
  Service, read_clock, draw_token, on_tokens, on_users, on_rbac, on_redis,
}
use django_ninja_rbac_authen.AuditService.{success, failure, record_event}
use django_ninja_rbac_authen.AuthService.{
  TokenPair, with_actor, event, single, text_or_null, hash_refresh_token, access_token_ttl_seconds,
  device_hash, mask_ip, encode_access_token,
}

module _ (d : Deployment) where
  open d use {platform, settings, redis}

  -- The access tokens of the user are revoked, and the theft is recorded, before the error is raised.
  react_to_theft : AuditAction → ℕ → AuditContext → Option RefreshTokenDto → Service d (Unit {0})
  unfolding revoke_user record_event
  react_to_theft action now context none = pure tt
  react_to_theft action now context (some t) = do
    on_redis d (λ link. revoke_user redis link t.user_id now (access_token_ttl_seconds d))
    record_event d (event action failure (single "family_id" t.family_id))
        (with_actor context t.user_id)

  is_moved : Option String → Option String → Bool
  is_moved previous presented =
      settings.refresh_bind_ip && not (is_none previous) && not (opt_str_eq previous presented)

  -- The new pair of tokens, with the roles and permissions that the user has now.
  issue_refreshed : String → AuditContext → RefreshTokenDto → Service d TokenPair
  unfolding record_event aget_user_role_names aget_user_permission_codes encode_access_token
  issue_refreshed replacement context t = do
    roles ← on_rbac d (aget_user_role_names t.user_id)
    permissions ← on_rbac d (aget_user_permission_codes t.user_id)
    access ← encode_access_token d (str_of t.user_id) roles permissions
    record_event d (event token_refreshed success (single "family_id" t.family_id))
        (with_actor context t.user_id)
    pure (record { access_token = access; refresh_token = replacement })

  -- The steps behind a successful rotation.
  finish_refresh : String → Option String → AuditContext → RefreshTokenDto → Service d TokenPair
  unfolding is_moved record_event issue_refreshed
  finish_refresh replacement previous_ip context t = do
    when (is_moved previous_ip context.ip) (
        record_event d
          (event token_ip_changed success (
            some (
              field "previous_ip" (text_or_null (mask_ip d previous_ip))
                (field "presented_ip" (text_or_null (mask_ip d context.ip)) end))))
          (with_actor context t.user_id))
    issue_refreshed replacement context t

  finish_rotated :
      String → Option String → AuditContext → Option RefreshTokenDto → Service d TokenPair
  unfolding finish_refresh
  finish_rotated replacement previous_ip context none =
      raise (runtime_error "A successful refresh rotation must produce a token")
  finish_rotated replacement previous_ip context (some t) =
      finish_refresh replacement previous_ip context t

  -- The tests on `rotation.outcome`.
  pub after_rotation :
      Outcome → String → ℕ → AuditContext → RefreshRotationResult → Service d TokenPair
  unfolding react_to_theft finish_rotated
  after_rotation binding_mismatch replacement now context r = do
    react_to_theft token_binding_mismatch now context r.refresh_token
    raise (raised refresh_token_binding_mismatch)
  after_rotation reused replacement now context r = do
    react_to_theft token_reuse_detected now context r.refresh_token
    raise (raised token_reused)
  after_rotation missing replacement now context r = raise (raised invalid_token)
  after_rotation expired replacement now context r = raise (raised invalid_token)
  after_rotation rotated replacement now context r =
      finish_rotated replacement r.previous_issued_ip context r.refresh_token

  unfoldable pub refresh : String → AuditContext → Service d TokenPair
  unfolding after_rotation arotate device_hash
  refresh raw_refresh_token context = do
    now ← read_clock d
    replacement ← draw_token d
    rotation ← on_tokens d (
        arotate settings.refresh_bind_device (record {
          token_hash = hash_refresh_token d raw_refresh_token;
          replacement_hash = hash_refresh_token d replacement;
          replacement_expires_at = now + settings.refresh_token_lifetime;
          rotated_at = now;
          presented_device_hash = device_hash d context.user_agent;
          presented_ip = context.ip;
        }))
    after_rotation rotation.outcome replacement now context rotation

  -- `access_token_jti` and `access_token_ttl` are both given, or the call is skipped.
  block_access : Option String → Option ℕ → Service d (Unit {0})
  unfolding block_token
  block_access (some jti) (some ttl) = on_redis d (λ link. block_token redis link jti ttl)
  block_access (some jti) none = pure tt
  block_access none ttl = pure tt

  revoke_found : AuditContext → Option RefreshTokenDto → Service d (Unit {0})
  unfolding arevoke record_event
  revoke_found context none = pure tt
  revoke_found context (some t) = do
    now ← read_clock d
    on_tokens d (arevoke t.id now)
    record_event d (event logout success (single "family_id" t.family_id))
        (with_actor context t.user_id)

  unfoldable pub logout_user :
      String → AuditContext → Option String → Option ℕ → Service d (Unit {0})
  unfolding block_access revoke_found aget_by_hash
  logout_user raw_refresh_token context jti ttl = do
    block_access jti ttl
    found ← on_tokens d (aget_by_hash (hash_refresh_token d raw_refresh_token))
    revoke_found context found

  unfoldable pub logout_all : ℕ → AuditContext → Service d (Unit {0})
  unfolding revoke_user arevoke_user record_event
  logout_all user_id context = do
    now ← read_clock d
    on_redis d (λ link. revoke_user redis link user_id now (access_token_ttl_seconds d))
    on_tokens d (arevoke_user user_id now)
    record_event d (event logout success (single "scope" "all")) (with_actor context user_id)

  email_or_raise : Option UserDto → Service d String
  email_or_raise none = raise (raised invalid_token)
  email_or_raise (some u) = pure u.email

  unfoldable pub aget_active_email : ℕ → Service d String
  unfolding email_or_raise Users.aget_by_id
  aget_active_email user_id = do user ← on_users d (Users.aget_by_id user_id); email_or_raise user
