-- ===== src/AdminService/Deactivation.antt =====
-- apps/accounts/services/admin.py: what switching a user off does to its tokens.
use django_ninja_rbac_authen.Prelude.{
  ℕ, suc, ◌≡◌, refl, true, false, none, some, ap, pos, List, ◌∙◌, find, any, update_where,
  find-update_where, any-of_find, find_test,
}
use django_ninja_rbac_authen.Effects.{ok}
use django_ninja_rbac_authen.Blocklist.{Link, revoke_user}
use django_ninja_rbac_authen.Blocklist.Laws.{blocklist_total}
use django_ninja_rbac_authen.Platform.{Deployment, texts}
use django_ninja_rbac_authen.Metadata.{arr, end, field}
use django_ninja_rbac_authen.Users.{
  User, UserChanges, user_dto_from_model, has_id, changed, update_fields, aupdate, aget_by_id,
}
use django_ninja_rbac_authen.AuditLogs.{AuditContext, user_update}
use django_ninja_rbac_authen.AuditService.{Event}
use django_ninja_rbac_authen.AuditService.Effect.{record_event-ok, logged-OnlyLogs}
use django_ninja_rbac_authen.World.{World}
use django_ninja_rbac_authen.AuthService.{access_token_ttl_seconds}
use django_ninja_rbac_authen.AdminService.{
  UserUpdate, changed_fields, user_event, hash_optional, after_update, apply_update, update_user,
}

abbrev pub switch_off : UserUpdate
switch_off = record { email = none; password = none; is_active = some false }

abbrev off_fields : UserChanges
off_fields = record { email = none; password = none; is_active = some false }

abbrev pub switched_off : User → User
switched_off u = record u { is_active = false }

found :
    (user_id : ℕ) (rows : List User) (u : User)
    → find (has_id user_id) rows ≡ some u
    → find (has_id user_id) (update_where (has_id user_id) (changed off_fields) rows)
      ≡ some (switched_off u)
found user_id rows u f =
    find-update_where (has_id user_id) (has_id user_id) (changed off_fields) rows u (λ v. refl) f
    ∙ rw (find_test (has_id user_id) rows u f) refl

module _ (d : Deployment) where
  abbrev pub off_link : World d → Link
  off_link w = record { up = d.platform.redis_up (suc w.calls); now = d.platform.now (suc w.calls) }

  abbrev off_event : User → Event
  off_event u =
      user_event user_update u.id
        (some (field "changed_fields" (arr (texts (changed_fields off_fields))) end))

  -- The state that the audit trail is written in.
  abbrev before : ℕ → User → World d → World d
  before user_id u w = record w {
    db = record w.db {
      users = record w.db.users {
        rows = update_where (has_id user_id) (changed off_fields) w.db.users.rows;
      };
    };
    redis =
        (revoke_user d.redis (off_link w) u.id (d.platform.now w.calls) (access_token_ttl_seconds d)
          w.redis).1;
    calls = suc (suc w.calls);
  }

  -- Deactivating an existing user answers with the user switched off, and sends the revocation of the
  -- user's access tokens as of that instant to Redis; the user's refresh tokens, and everyone's, stay as
  -- they were.
  pub deactivation :
      (user_id : ℕ) (context : AuditContext) (w : World d) (u : User)
      → find (has_id user_id) w.db.users.rows ≡ some u
      → let after = update_user d user_id switch_off context w in
        (after.0 ≡ ok (user_dto_from_model (switched_off u)))
        × (after.1.db.users.rows ≡ update_where (has_id user_id) switched_off w.db.users.rows)
        × (after.1.redis
            ≡ (revoke_user d.redis
                (off_link w)
                u.id
                (d.platform.now w.calls)
                (access_token_ttl_seconds d)
                w.redis).1)
        × (after.1.db.tokens ≡ w.db.tokens)
        × (after.1.db.rbac ≡ w.db.rbac)
  unfolding update_user hash_optional apply_update after_update aupdate update_fields aget_by_id
  deactivation user_id context w u f =
      let there : any (has_id user_id) w.db.users.rows ≡ true =
        any-of_find (has_id user_id) w.db.users.rows u f in
      let kept = logged-OnlyLogs d (off_event u) context (before user_id u w) in
      rw
        (
          there,
          found user_id w.db.users.rows u f,
          (blocklist_total d.redis (off_link w) "" u.id (access_token_ttl_seconds d)
              (d.platform.now w.calls) (pos 0) w.redis).1,
          record_event-ok,
        )
        (refl, ap (λ t. t.rows) kept.users, kept.redis, kept.tokens, kept.rbac)
