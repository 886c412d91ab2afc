-- ===== src/Guard/Access.antt =====
-- Which bearer tokens are admitted, and what stands behind the permission check.
use django_ninja_rbac_authen.Prelude.{
  ℕ, suc, ◌*◌, ◌/◌, ◌≤◌, ◌<◌, ◌≡◌, refl, Bool, true, false, some, String, arith, ℤ, pos, ap, ◌∙◌,
}
use django_ninja_rbac_authen.Errors.{raised, invalid_token}
use django_ninja_rbac_authen.Effects.{Result, ok, err}
use django_ninja_rbac_authen.Decimal.{str_of, int_of, int_of-str_of}
use django_ninja_rbac_authen.Blocklist.{Link, is_blocked}
use django_ninja_rbac_authen.Platform.{Payload, Deployment}
use django_ninja_rbac_authen.Jwt.{AccessTokenClaims}
use django_ninja_rbac_authen.Jwt.RoundTrip.{
  IsCarried, claims_read, decode-encode_access_token, decode-encode_expired_token,
}
use django_ninja_rbac_authen.World.{World, tick}
use django_ninja_rbac_authen.Guard.{Principal, principal_of, admit, authenticate}

module _ (d : Deployment) where
  -- The connection to Redis that the check meets: one answer from outside after the clock.
  abbrev pub check_link : World d → Link
  check_link w = record {
    up = d.platform.redis_up (suc w.calls);
    now = d.platform.now (suc w.calls);
  }

  -- What the blocklist says of the token at that moment.
  abbrev pub blocked_now : World d → String → ℕ → ℤ → Result Bool
  blocked_now w jti user issued_at =
      (is_blocked d.redis (check_link w) jti user issued_at w.redis).0

  -- Whether `authenticate` admits a token that carries these claims.
  abbrev pub admission : ℕ → AccessTokenClaims → Result Bool → Result Principal
  admission user c (ok true) = err (raised invalid_token)
  admission user c (ok false) = ok (principal_of user c)
  admission user c (err e) = err e

  admit-result :
      (c : AccessTokenClaims) (user : ℕ) (w : World d)
      → (admit d c (some user) (tick d w)).0
        ≡ admission user c (blocked_now w c.token_id user c.issued_at)
  unfolding admit
  admit-result c user w = ground arith

  -- A token issued to a user, with an identifier and instants that a token can carry, is answered by the
  -- blocklist from its issue until the second of its expiry: refused as invalid if it is blocked, and
  -- otherwise admitted as a principal with exactly the user, the roles and the permissions that it was
  -- issued with.
  pub authenticate-encode :
      (p : Payload) (user : ℕ) (w : World d)
      → IsCarried p
      → p.sub ≡ str_of (suc user)
      → p.iat ≤ d.platform.now w.calls
      → d.platform.now w.calls < p.exp / 1000000 * 1000000
      → (authenticate d (d.jwt.encode p d.settings.jwt_secret) w).0
        ≡ admission
            (suc user)
            (claims_read p)
            (blocked_now w p.jti (suc user) (pos (p.iat / 1000000)))
  unfolding authenticate
  authenticate-encode p user w carried sub issued live =
      rw
        (
          decode-encode_access_token d.jwt p d.settings.jwt_secret (d.platform.now w.calls) carried
              issued live,
          ap int_of sub ∙ int_of-str_of (suc user),
        )
        (admit-result (claims_read p) (suc user) w)

  -- From the second of its expiry on, a token is refused as invalid.
  pub authenticate_expired :
      (p : Payload) (w : World d)
      → p.exp / 1000000 * 1000000 ≤ d.platform.now w.calls
      → (authenticate d (d.jwt.encode p d.settings.jwt_secret) w).0 ≡ err (raised invalid_token)
  unfolding authenticate
  authenticate_expired p w late =
      rw (decode-encode_expired_token d.jwt p d.settings.jwt_secret (d.platform.now w.calls) late)
        refl
