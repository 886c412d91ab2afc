-- ===== src/Blocklist/Epoch.antt =====
-- The revocation epoch of a user: which tokens it invalidates.
use django_ninja_rbac_authen.Prelude.{
  ℕ, ◌+◌, ◌*◌, ◌≤◌, ◌<◌, ◌≡◌, ◌≢◌, refl, sym, ap, true, Option, none, some, String, ltb, pos,
  is_none, if◌then◌else◌,
}
use django_ninja_rbac_authen.Effects.{ok}
use django_ninja_rbac_authen.Decimal.{str_of, int_of-str_of}
use django_ninja_rbac_authen.Redis.{RedisServer}
use django_ninja_rbac_authen.Blocklist.{
  Link, epoch_of, token_key, user_epoch_key, revoke_user, is_blocked, check_values,
}
use django_ninja_rbac_authen.Blocklist.Keys.{user_epoch_key-injective, token_key-ne-user_epoch_key}
use django_ninja_rbac_authen.Blocklist.Laws.{epoch-cutoff, is_blocked-up, revoke_user-up, verdict}

module _ (redis : RedisServer) where
  open redis use {Store, get, set, get-set_self, get-set_ne}

  check-epoch :
      (iat at : ℕ) (blocked : Option String)
      → verdict redis (check_values (pos iat) blocked (some (str_of (epoch_of at))))
        ≡ (if is_none blocked then ltb (iat * 1000000) at else true)
  check-epoch iat at (some v) = refl
  check-epoch iat at none = rw (int_of-str_of (epoch_of at)) (epoch-cutoff iat at)

  -- After a `revoke_user` for a lifetime that is not zero, as long as it has not passed and if Redis was
  -- up then and is up for the check, a token of the user is refused exactly when its own
  -- identifier is blocked or its `iat`, a whole second, lies before the instant of the revocation; the
  -- checks of the tokens of other users give what they gave before.
  pub revoke_user-is_blocked :
      (link later : Link) (jti : String) (user other at ttl iat : ℕ) (s : Store)
      → link.up ≡ true
      → later.up ≡ true
      → 0 < ttl
      → link.now ≤ later.now
      → later.now < link.now + ttl * 1000000
      → other ≢ user
      → let s' = (revoke_user redis link user at ttl s).1 in
        ((is_blocked redis later jti user (pos iat) s').0
          ≡ ok (if is_none (get s (token_key jti) later.now) then ltb (iat * 1000000) at else true))
        × ((is_blocked redis later jti other (pos iat) s').0
            ≡ (is_blocked redis later jti other (pos iat) s).0)
  revoke_user-is_blocked link later jti user other at ttl iat s up up' h early late ne =
      rw (revoke_user-up redis link user at ttl s up h) (
        rw
            (
              is_blocked-up redis later jti user (pos iat) _ up',
              get-set_self s (user_epoch_key user) (str_of (epoch_of at)) ttl link.now later.now
                  early late,
              get-set_ne s (user_epoch_key user) (token_key jti) (str_of (epoch_of at)) ttl link.now
                  later.now (λ e. token_key-ne-user_epoch_key jti user (sym e)),
            )
            (ap ok (check-epoch iat at (get s (token_key jti) later.now))),
        rw
            (
              is_blocked-up redis later jti other (pos iat) _ up',
              is_blocked-up redis later jti other (pos iat) s up',
              get-set_ne s (user_epoch_key user) (token_key jti) (str_of (epoch_of at)) ttl link.now
                  later.now (λ e. token_key-ne-user_epoch_key jti user (sym e)),
              get-set_ne s (user_epoch_key user) (user_epoch_key other) (str_of (epoch_of at)) ttl
                  link.now later.now (λ e. ne (sym (user_epoch_key-injective user other e))),
            )
            refl,
      )
