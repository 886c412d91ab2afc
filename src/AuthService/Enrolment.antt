-- ===== src/AuthService/Enrolment.antt =====
-- From `register_user` to `login` (apps/authz/services/auth.py): who registers can log in.
use django_ninja_rbac_authen.Prelude.{
  ℕ, suc, ◌+◌, ◌≡◌, ◌≢◌, refl, sym, subst, true, false, none, some, String, ◌==◌, [], ◌∷◌, ◌++◌,
  arith, str_eq, eq_refl, find, any, find-append_new, any-false, All-map, any-append_last,
  any-of_find-some,
}
use django_ninja_rbac_authen.Effects.{ok}
use django_ninja_rbac_authen.Platform.{Deployment}
use django_ninja_rbac_authen.RefreshTokens.Total.{IsUnused}
use django_ninja_rbac_authen.Users.{
  User, has_email, is_taken_by, new_user, normalize_email, user_dto_from_model, insert_user,
}
use django_ninja_rbac_authen.Rbac.{Role, is_link, has_role, insert_link, aget_role_by_name}
use django_ninja_rbac_authen.Registration.{acreate_user_with_role}
use django_ninja_rbac_authen.AuditLogs.{AuditContext, register}
use django_ninja_rbac_authen.AuditService.{success}
use django_ninja_rbac_authen.AuditService.Effect.{
  record_event-ok, logged, OnlyLogs, logged-OnlyLogs,
}
use django_ninja_rbac_authen.World.{World}
use django_ninja_rbac_authen.AuthService.{event, with_identity, hash_refresh_token, register_user}
use django_ninja_rbac_authen.AuthService.Login.{IsAccount}
use django_ninja_rbac_authen.AuthService.Opening.{IsOpened, drawn_token, login_opens}

module _ (d : Deployment) where
  -- The documented behaviour of Django's hashers: a hash is not empty and accepts its password.
  pub record Hashes : Type 0 where
    pub accepts :
        (n : ℕ) (password : String)
        → d.platform.check_password password (d.platform.make_password n password) ≡ true
    pub usable : (n : ℕ) (password : String) → d.platform.make_password n password ≢ ""

  -- The row and the role link of the new user.
  abbrev pub enrolled : String → String → World d → User
  enrolled email password w =
      new_user d.platform w.db.users.next_id (d.platform.now (suc w.calls))
        (normalize_email d.platform email) (d.platform.make_password w.calls password)

  abbrev enrolled_state : String → String → Role → World d → World d
  enrolled_state email password role w = record w {
    db = record w.db {
      users = record {
        rows = w.db.users.rows ++ enrolled email password w ∷ [];
        next_id = w.db.users.next_id + 1;
      };
      rbac = record w.db.rbac {
        user_roles =
            w.db.rbac.user_roles ++ record { user_id = w.db.users.next_id; role_id = role.id } ∷ [];
      };
    };
    calls = suc (suc w.calls);
  }

  -- The default role exists, and neither the address nor the link is taken.
  pub record CanEnrol (email : String) (role : Role) (w : World d) : Type 0 where
    pub default_role :
        find (λ (r : Role). str_eq r.name d.settings.default_user_role) w.db.rbac.roles ≡ some role
    pub address_free :
        any (is_taken_by d.platform (normalize_email d.platform email)) w.db.users.rows ≡ false
    pub link_free : any (is_link w.db.users.next_id role.id) w.db.rbac.user_roles ≡ false

  module _ (email password : String) (context : AuditContext) (role : Role) (w : World d)
      (can : CanEnrol email role w) where
    role_known : has_role role.id w.db.rbac.roles ≡ true
    role_known =
        any-of_find-some (λ r. str_eq r.name d.settings.default_user_role) (λ r. r.id == role.id)
          w.db.rbac.roles role can.default_role (ground arith)

    recorded : World d
    recorded =
        logged d (event register success none)
          (with_identity context (enrolled email password w).id (enrolled email password w).email)
          (enrolled_state email password role w)

    register-recorded :
        register_user d email password context true w
        ≡ (ok (user_dto_from_model (enrolled email password w)), recorded)
    unfolding register_user recorded aget_role_by_name acreate_user_with_role insert_user
        insert_link
    register-recorded =
        rw (can.default_role, can.address_free, can.link_free, role_known, record_event-ok) refl

    recorded-OnlyLogs :
        OnlyLogs d (event register success none) (enrolled_state email password role w) recorded
    unfolding recorded
    recorded-OnlyLogs =
        logged-OnlyLogs d (event register success none)
          (with_identity context (enrolled email password w).id (enrolled email password w).email)
          (enrolled_state email password role w)

    -- The new row is the one under the address.
    enrolled-IsAccount : IsAccount d email recorded (enrolled email password w)
    enrolled-IsAccount =
        let address = normalize_email d.platform email in
        rw recorded-OnlyLogs.users (
          find-append_new (has_email address) w.db.users.rows (enrolled email password w)
            (All-map _ _ w.db.users.rows (λ u free. ground (arith, free))
              (any-false (is_taken_by d.platform address) w.db.users.rows can.address_free))
            (eq_refl address))

    linked : any (is_link w.db.users.next_id role.id) recorded.db.rbac.user_roles ≡ true
    linked =
        rw recorded-OnlyLogs.rbac (
          any-append_last (is_link w.db.users.next_id role.id) w.db.rbac.user_roles _
            (ground arith))

    login_after :
        (client : AuditContext)
        → Hashes
        → IsUnused (hash_refresh_token d (drawn_token d recorded)) w.db.tokens
        → IsOpened d email password client (enrolled email password w) recorded
    login_after client hashes unused =
        login_opens d email password client (enrolled email password w) recorded enrolled-IsAccount
          refl (hashes.usable w.calls password) (hashes.accepts w.calls password)
          (subst (IsUnused (hash_refresh_token d (drawn_token d recorded)))
            (sym recorded-OnlyLogs.tokens) unused)

    -- Where the default role exists and neither the address nor the role link of the next key is taken,
    -- registering succeeds and links the new user to the role. Logging in with the same address and
    -- password right after it succeeds as well, from any client: it hands out an access token with the
    -- roles and permissions of the new user and opens a family of refresh tokens, provided that a
    -- hasher accepts the password that it hashed, its hashes are not empty, and the hash of the refresh
    -- token that is drawn is not in the table yet.
    pub register-login :
        (client : AuditContext)
        → Hashes
        → IsUnused
            (hash_refresh_token d (drawn_token d (register_user d email password context true w).1))
            w.db.tokens
        → let after = register_user d email password context true w in
          (after.0 ≡ ok (user_dto_from_model (enrolled email password w)))
          × (any (is_link w.db.users.next_id role.id) after.1.db.rbac.user_roles ≡ true)
          × IsOpened d email password client (enrolled email password w) after.1
    register-login client hashes unused =
        rw register-recorded
          (refl, linked, login_after client hashes (rw register-recorded at unused))
