-- ===== src/Sessions/Revocation.antt =====
-- The access tokens of a user after `logout_all` (apps/authz/services/auth.py), met by the bearer check
-- of apps/authz/security/guard.py.
use django_ninja_rbac_authen.Prelude.{
  ℕ, suc, ◌+◌, ◌*◌, ◌/◌, ◌≤◌, ◌<◌, ◌≡◌, refl, inl, inr, true, arith, pos, is_none, Bool-cases, ap,
  ◌∙◌,
}
use django_ninja_rbac_authen.Errors.{raised, invalid_token}
use django_ninja_rbac_authen.Effects.{ok, err}
use django_ninja_rbac_authen.Decimal.{str_of}
use django_ninja_rbac_authen.Blocklist.{token_key}
use django_ninja_rbac_authen.Blocklist.Epoch.{revoke_user-is_blocked}
use django_ninja_rbac_authen.Platform.{Payload, Deployment}
use django_ninja_rbac_authen.Jwt.RoundTrip.{IsCarried, claims_read}
use django_ninja_rbac_authen.AuditLogs.{AuditContext}
use django_ninja_rbac_authen.World.{World}
use django_ninja_rbac_authen.AuthService.{access_token_ttl_seconds}
use django_ninja_rbac_authen.Guard.{authenticate}
use django_ninja_rbac_authen.Guard.Access.{check_link, blocked_now, admission, authenticate-encode}
use django_ninja_rbac_authen.Sessions.{logout_all}
use django_ninja_rbac_authen.Sessions.Logout.{logout_link, logout_all_revokes}

-- `floor` of an instant to the second.
abbrev pub whole_second : ℕ → ℕ
whole_second at = at / 1000000 * 1000000

module _ (d : Deployment) where
  -- A token of the user, as the service issues it under a lifetime of whole seconds.
  abbrev pub IsIssuedTo : ℕ → Payload → Type 0
  IsIssuedTo user p =
      IsCarried p
      × (p.sub ≡ str_of (suc user))
      × (p.exp ≡ p.iat + d.settings.access_token_lifetime)
      × (d.settings.access_token_lifetime ≡ access_token_ttl_seconds d * 1000000)

  -- The second state follows the first one's logout: Redis was up both times and the clock went on.
  abbrev pub Follows : ℕ → AuditContext → World d → World d → Type 0
  Follows user context w w' =
      ((logout_link d w).up ≡ true)
      × ((check_link d w').up ≡ true)
      × (d.platform.now w.calls ≤ (logout_link d w).now)
      × ((logout_link d w).now ≤ d.platform.now w'.calls)
      × (d.platform.now w'.calls ≤ (check_link d w').now)
      × (w'.redis ≡ (logout_all d (suc user) context w).1.redis)

  blocked_after :
      (user : ℕ) (context : AuditContext) (w w' : World d) (p : Payload)
      → IsIssuedTo user p
      → Follows user context w w'
      → p.iat ≤ d.platform.now w.calls
      → whole_second p.iat < d.platform.now w.calls
      → (check_link d w').now < whole_second p.exp
      → blocked_now d w' p.jti (suc user) (pos (p.iat / 1000000)) ≡ ok true
  blocked_after user context w w' p (carried, sub, exp, whole) (up, up', a, b, c, same) issued
        before alive =
      let at : ℕ = d.platform.now w.calls in
      let ttl : ℕ = access_token_ttl_seconds d in
      let (answer, others) =
        revoke_user-is_blocked d.redis (logout_link d w) (check_link d w') p.jti (suc user)
          (suc (suc user)) at ttl (p.iat / 1000000) w.redis up up' (ground arith) (ground arith)
          (omega (arith, alive, exp, whole, issued, a)) (λ e. ground arith) in
      let (_, _, _, sent, _, _) = logout_all_revokes d (suc user) context w in
      rw (same, sent, answer)
        (ap ok
          (elim (Bool-cases
            (is_none (d.redis.get w.redis (token_key p.jti) (check_link d w').now))) [
              | inl free ↦ rw free (ground (arith, before))
              | inr taken ↦ rw taken refl
            ]))

  -- After `logout_all`, an access token of that user which was issued in an earlier second than the
  -- logout is refused for as long as it would have lived, if Redis was up for the logout and is up
  -- for the check, the clock does not go back, and Redis still holds what the logout left there.
  pub logout_all_refuses :
      (user : ℕ) (context : AuditContext) (w w' : World d) (p : Payload)
      → IsIssuedTo user p
      → Follows user context w w'
      → p.iat ≤ d.platform.now w.calls
      → whole_second p.iat < d.platform.now w.calls
      → (check_link d w').now < whole_second p.exp
      → (authenticate d (d.jwt.encode p d.settings.jwt_secret) w').0 ≡ err (raised invalid_token)
  logout_all_refuses user context w w' p x f issued before alive =
      authenticate-encode d p user w' x.0 x.1 (ground (arith, f)) (ground (arith, f))
      ∙ ap (admission d (suc user) (claims_read p))
          (blocked_after user context w w' p x f issued before alive)
