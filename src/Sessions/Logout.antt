-- ===== src/Sessions/Logout.antt =====
-- apps/authz/services/auth.py: what `logout_all` leaves behind.
use django_ninja_rbac_authen.Prelude.{
  ℕ, suc, ◌≡◌, refl, not, ◌&&◌, List, [], ◌∷◌, arith, ◌==◌, select, update_where, All,
  All-update_where, All-of_forall, pos,
}
use django_ninja_rbac_authen.Effects.{ok}
use django_ninja_rbac_authen.Blocklist.{Link, revoke_user}
use django_ninja_rbac_authen.Blocklist.Laws.{blocklist_total}
use django_ninja_rbac_authen.Platform.{Deployment}
use django_ninja_rbac_authen.RefreshTokens.{
  RefreshToken, is_active, revoke_row, revoke_where, arevoke_user,
}
use django_ninja_rbac_authen.RefreshTokens.Valid.{IsRevoked}
use django_ninja_rbac_authen.AuditLogs.{AuditContext, logout}
use django_ninja_rbac_authen.AuditService.{Event, success}
use django_ninja_rbac_authen.AuditService.Effect.{record_event-ok, logged-OnlyLogs}
use django_ninja_rbac_authen.World.{World}
use django_ninja_rbac_authen.AuthService.{with_actor, event, single, access_token_ttl_seconds}
use django_ninja_rbac_authen.Sessions.{logout_all}

abbrev pub of_others : ℕ → List RefreshToken → List RefreshToken
of_others user = select (λ r. not (r.user_id == user))

of_others-update :
    (user at : ℕ) (rows : List RefreshToken)
    → of_others user (update_where (λ r. r.user_id == user && is_active r) (revoke_row at) rows)
      ≡ of_others user rows
of_others-update user at [] = refl
of_others-update user at (r ∷ rows) = ground (arith, of_others-update user at rows)

All-IsRevoked :
    (user at : ℕ) (rows : List RefreshToken)
    → All
        (λ r. r.user_id ≡ user → IsRevoked r)
        (update_where (λ r. r.user_id == user && is_active r) (revoke_row at) rows)
All-IsRevoked user at rows =
    All-update_where (λ r. Unit {0}) (λ r. r.user_id ≡ user → IsRevoked r)
      (λ r. r.user_id == user && is_active r) (revoke_row at) rows (λ r _. ground arith)
      (All-of_forall (λ r. Unit {0}) rows (λ r. tt))

module _ (d : Deployment) where
  abbrev pub logout_link : World d → Link
  logout_link w = record {
    up = d.platform.redis_up (suc w.calls);
    now = d.platform.now (suc w.calls);
  }

  abbrev logout_event : Event
  logout_event = event logout success (single "scope" "all")

  -- The state that the audit trail is written in.
  abbrev before : ℕ → World d → World d
  before user_id w = record w {
    db = record w.db {
      tokens = record w.db.tokens {
        rows =
            update_where (λ r. r.user_id == user_id && is_active r)
              (revoke_row (d.platform.now w.calls)) w.db.tokens.rows;
      };
    };
    redis =
        (revoke_user d.redis (logout_link w) user_id (d.platform.now w.calls)
          (access_token_ttl_seconds d) w.redis).1;
    calls = suc (suc w.calls);
  }

  -- `logout_all` always succeeds. Afterwards every refresh token of the user is revoked, those of other
  -- users are what they were, the revocation of the user's access tokens as of the call's instant has
  -- been sent to Redis, and users and roles are unchanged.
  pub logout_all_revokes :
      (user_id : ℕ) (context : AuditContext) (w : World d)
      → let after = logout_all d user_id context w in
        (after.0 ≡ ok tt)
        × All (λ r. r.user_id ≡ user_id → IsRevoked r) after.1.db.tokens.rows
        × (of_others user_id after.1.db.tokens.rows ≡ of_others user_id w.db.tokens.rows)
        × (after.1.redis
            ≡ (revoke_user d.redis
                (logout_link w)
                user_id
                (d.platform.now w.calls)
                (access_token_ttl_seconds d)
                w.redis).1)
        × (after.1.db.users ≡ w.db.users)
        × (after.1.db.rbac ≡ w.db.rbac)
  unfolding logout_all arevoke_user revoke_where
  logout_all_revokes user_id context w =
      let now : ℕ = d.platform.now w.calls in
      let kept = logged-OnlyLogs d logout_event (with_actor context user_id) (before user_id w) in
      rw
        (
          (blocklist_total d.redis (logout_link w) "" user_id (access_token_ttl_seconds d) now
              (pos 0) w.redis).1,
          record_event-ok,
        )
        (
          refl,
          rw kept.tokens (All-IsRevoked user_id now w.db.tokens.rows),
          rw kept.tokens (of_others-update user_id now w.db.tokens.rows),
          kept.redis,
          kept.users,
          kept.rbac,
        )
