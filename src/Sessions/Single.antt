-- ===== src/Sessions/Single.antt =====
-- apps/authz/services/auth.py: what the logout from one session leaves behind.
use django_ninja_rbac_authen.Prelude.{ℕ, ◌≡◌, refl, Option, none, some, String, pos}
use django_ninja_rbac_authen.Effects.{ok}
use django_ninja_rbac_authen.Blocklist.{Link, block_token}
use django_ninja_rbac_authen.Blocklist.Laws.{blocklist_total}
use django_ninja_rbac_authen.Platform.{Deployment}
use django_ninja_rbac_authen.RefreshTokens.{RefreshTokenDto, revoke_where, arevoke, aget_by_hash}
use django_ninja_rbac_authen.AuditLogs.{AuditContext, logout}
use django_ninja_rbac_authen.AuditService.{success}
use django_ninja_rbac_authen.AuditService.Effect.{record_event-ok, logged-OnlyLogs}
use django_ninja_rbac_authen.World.{World}
use django_ninja_rbac_authen.AuthService.{with_actor, event, single}
use django_ninja_rbac_authen.Sessions.{block_access, revoke_found, logout_user}

module _ (d : Deployment) where
  -- The connection to Redis that the logout meets with its first call.
  abbrev pub block_link : World d → Link
  block_link w = record { up = d.platform.redis_up w.calls; now = d.platform.now w.calls }

  revoke_found-redis :
      (context : AuditContext) (found : Option RefreshTokenDto) (w : World d)
      → let after = revoke_found d context found w in (after.0 ≡ ok tt) × (after.1.redis ≡ w.redis)
  unfolding revoke_found arevoke revoke_where
  revoke_found-redis context none w = (refl, refl)
  revoke_found-redis context (some t) w = rw record_event-ok (
    refl,
    (logged-OnlyLogs d (event logout success (single "family_id" t.family_id))
        (with_actor context t.user_id) _).redis,
  )

  -- A logout that names an access token succeeds, and Redis is what blocking that token made of it.
  pub logout_user-redis :
      (raw jti : String) (ttl : ℕ) (context : AuditContext) (w : World d)
      → let after = logout_user d raw context (some jti) (some ttl) w in
        (after.0 ≡ ok tt) × (after.1.redis ≡ (block_token d.redis (block_link w) jti ttl w.redis).1)
  unfolding logout_user block_access aget_by_hash
  logout_user-redis raw jti ttl context w =
      rw (blocklist_total d.redis (block_link w) jti 0 ttl 0 (pos 0) w.redis).0
        (revoke_found-redis context _ _)
