-- ===== src/AuthService/Opening.antt =====
-- apps/authz/services/auth.py: what a `login` that is let in hands out and stores.
use django_ninja_rbac_authen.Prelude.{
  suc, ◌+◌, ◌≡◌, ◌≢◌, refl, true, false, none, some, String, arith, str_eq, eq_iff, find, any,
  select, find-append_new, eq_refl, [], ◌∷◌, ◌++◌, any-false, any-none,
}
use django_ninja_rbac_authen.Effects.{ok}
use django_ninja_rbac_authen.Decimal.{str_of}
use django_ninja_rbac_authen.Platform.{Deployment}
use django_ninja_rbac_authen.RefreshTokens.{
  RefreshToken, has_hash, new_row, NewToken, acreate, insert_token,
}
use django_ninja_rbac_authen.RefreshTokens.Total.{IsUnused}
use django_ninja_rbac_authen.Users.{User, aget_credentials}
use django_ninja_rbac_authen.Rbac.{
  is_link, is_inherited, names_of, codes_of, aget_user_role_names, aget_user_permission_codes,
}
use django_ninja_rbac_authen.AuditLogs.{AuditContext, login_success}
use django_ninja_rbac_authen.AuditService.{success}
use django_ninja_rbac_authen.AuditService.Effect.{record_event-ok, logged-OnlyLogs}
use django_ninja_rbac_authen.Jwt.{payload_of}
use django_ninja_rbac_authen.World.{World}
use django_ninja_rbac_authen.AuthService.{
  TokenPair, event, with_identity, hash_refresh_token, device_hash, verify_password,
  encode_access_token, issue_token_pair, accept_login, decide_login, login,
}
use django_ninja_rbac_authen.AuthService.Login.{IsAccount}
use django_ninja_rbac_authen.Sessions.Refresh.{IsAccessTokenFor}

module _ (d : Deployment) where
  -- The raw refresh token that the login draws, and the row that it stores for it.
  abbrev pub drawn_token : World d → String
  drawn_token w = d.platform.token_urlsafe (suc w.calls)

  abbrev login_token : AuditContext → User → World d → NewToken
  login_token context u w = record {
    user_id = u.id;
    token_hash = hash_refresh_token d (drawn_token w);
    family_id = d.platform.uuid4 w.calls;
    parent_id = none;
    expires_at = d.platform.now (suc (suc w.calls)) + d.settings.refresh_token_lifetime;
    device_hash = device_hash d context.user_agent;
    issued_ip = context.ip;
  }

  -- The pair is handed out, and the row of its refresh token starts a family of its own.
  abbrev pub IsOpened : String → String → AuditContext → User → World d → Type 0
  IsOpened email password context u w =
      let after = login d email password context w in
      (pair : TokenPair) × (n : RefreshToken) × (after.0 ≡ ok pair)
      × IsAccessTokenFor d u.id w.db.rbac pair.access_token
      × (find (has_hash (hash_refresh_token d pair.refresh_token)) after.1.db.tokens.rows ≡ some n)
      × (n.revoked_at ≡ none)
      × (n.user_id ≡ u.id)
      × (n.family_id ≡ d.platform.uuid4 w.calls)
      × (n.parent_id ≡ none)
      × (n.device_hash ≡ device_hash d context.user_agent)
      × (n.expires_at ≡ d.platform.now (suc (suc w.calls)) + d.settings.refresh_token_lifetime)
      × (after.1.db.users ≡ w.db.users)
      × (after.1.redis ≡ w.redis)

  accepted_password :
      (password : String) (u : User)
      → u.password ≢ ""
      → d.platform.check_password password u.password ≡ true
      → verify_password d password (some u.password) ≡ true
  unfolding verify_password
  accepted_password password u usable fits =
      let set : str_eq u.password "" ≡ false = ground (arith, eq_iff u.password "") in
      rw (set, fits) refl

  abbrev opened_pair : User → World d → TokenPair
  opened_pair u w = record {
    access_token =
        d.jwt.encode
          (payload_of (str_of u.id)
            (names_of (select (λ r. any (is_link u.id r.id) w.db.rbac.user_roles) w.db.rbac.roles))
            (codes_of (select (is_inherited u.id w.db.rbac) w.db.rbac.permissions))
            d.settings.access_token_lifetime (d.platform.now (suc (suc (suc w.calls))))
            (d.platform.uuid4 (suc (suc (suc (suc w.calls))))))
          d.settings.jwt_secret;
    refresh_token = drawn_token w;
  }

  opened_pair-IsAccessTokenFor :
      (u : User) (w : World d) → IsAccessTokenFor d u.id w.db.rbac (opened_pair u w).access_token
  unfolding aget_user_role_names aget_user_permission_codes
  opened_pair-IsAccessTokenFor u w = (_, _, _, _, refl, refl, refl)

  -- The state that the audit trail is written in.
  abbrev opened_state : AuditContext → User → World d → World d
  opened_state context u w = record w {
    db = record w.db {
      tokens = record {
        rows = w.db.tokens.rows ++ new_row w.db.tokens.next_id (login_token context u w) ∷ [];
        next_id = w.db.tokens.next_id + 1;
      };
    };
    calls = suc (suc (suc (suc (suc w.calls))));
  }

  -- The holder of an active account with an accepted password is let in, provided that the hash of the
  -- drawn refresh token is not in the table yet: the access token carries the user's roles and
  -- permissions, and the table holds, under the hash of the refresh token, an active row of the user,
  -- without a parent, in the family of the UUID drawn for it and bound to the device of the request;
  -- users and Redis are unchanged.
  pub login_opens :
      (email password : String) (context : AuditContext) (u : User) (w : World d)
      → IsAccount d email w u
      → u.is_active ≡ true
      → u.password ≢ ""
      → d.platform.check_password password u.password ≡ true
      → IsUnused (hash_refresh_token d (drawn_token w)) w.db.tokens
      → IsOpened email password context u w
  unfolding login decide_login aget_credentials accept_login issue_token_pair acreate insert_token
      encode_access_token aget_user_role_names aget_user_permission_codes
  login_opens email password context u w account on usable fits unused =
      let free : any (has_hash (hash_refresh_token d (drawn_token w))) w.db.tokens.rows ≡ false =
        any-none (has_hash (hash_refresh_token d (drawn_token w))) w.db.tokens.rows unused in
      let kept =
        logged-OnlyLogs d (event login_success success none) (with_identity context u.id u.email)
          (opened_state context u w) in
      rw (account, accepted_password password u usable fits, on, free, record_event-ok)
        (
          opened_pair u w,
          new_row w.db.tokens.next_id (login_token context u w),
          refl,
          opened_pair-IsAccessTokenFor u w,
          rw kept.tokens (
              find-append_new (has_hash (hash_refresh_token d (drawn_token w))) w.db.tokens.rows _
                (any-false (has_hash (hash_refresh_token d (drawn_token w))) w.db.tokens.rows free)
                (eq_refl (hash_refresh_token d (drawn_token w)))),
          refl,
          refl,
          refl,
          refl,
          refl,
          refl,
          kept.users,
          kept.redis,
        )
