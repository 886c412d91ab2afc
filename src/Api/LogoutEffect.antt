-- ===== src/Api/LogoutEffect.antt =====
-- apps/authz/api/routers/auth.py: the access token with which a client logs out.
use django_ninja_rbac_authen.Prelude.{
  ℕ, suc, ◌+◌, ◌*◌, ◌/◌, ◌≤◌, ◌<◌, ◌≡◌, sym, ap, ◌∙◌, true, some, List, String, arith, pos,
}
use django_ninja_rbac_authen.Errors.{raised, invalid_token}
use django_ninja_rbac_authen.Effects.{Result, ok, err}
use django_ninja_rbac_authen.Effects.Continue.{continue-done}
use django_ninja_rbac_authen.Decimal.{str_of}
use django_ninja_rbac_authen.Blocklist.{block_token}
use django_ninja_rbac_authen.Blocklist.Laws.{block_token-is_blocked}
use django_ninja_rbac_authen.Platform.{Payload, Deployment}
use django_ninja_rbac_authen.Jwt.RoundTrip.{IsCarried, claims_read}
use django_ninja_rbac_authen.World.{World, tick}
use django_ninja_rbac_authen.Guard.{Principal, principal_of, authenticate}
use django_ninja_rbac_authen.Guard.Access.{check_link, blocked_now, admission, authenticate-encode}
use django_ninja_rbac_authen.ClientIp.{IpLibrary, Request, from_request}
use django_ninja_rbac_authen.Sessions.Single.{logout_user-redis}
use django_ninja_rbac_authen.Api.Envelope.{Response}
use django_ninja_rbac_authen.Api.AuthRouter.{remaining_access_ttl, logout}

-- Until its second of expiry a token is left with whole seconds that reach that second.
remaining_access_ttl-reaches :
    (expires_at now : ℕ)
    → now < expires_at * 1000000
    → let ttl = remaining_access_ttl (pos expires_at) now in
      (0 < ttl) × (expires_at * 1000000 ≤ now + ttl * 1000000)
unfolding remaining_access_ttl
remaining_access_ttl-reaches expires_at now h = (omega arith, omega arith)

module _ (d : Deployment) (ip : IpLibrary) (cidrs : List String) where
  -- The principal of a bearer of the payload.
  abbrev pub bearer : ℕ → Payload → Principal
  bearer user p = principal_of (suc user) (claims_read p)

  -- The second state follows the logout: Redis was up both times and the clock went on.
  abbrev pub FollowsLogout : Request → Principal → String → World d → World d → Type 0
  FollowsLogout request caller raw w w' =
      ((check_link d w).up ≡ true)
      × ((check_link d w').up ≡ true)
      × (d.platform.now w.calls ≤ (check_link d w).now)
      × ((check_link d w).now ≤ d.platform.now w'.calls)
      × (d.platform.now w'.calls ≤ (check_link d w').now)
      × (w'.redis ≡ (logout d ip cidrs request (some caller) raw w).1.redis)

  logout-redis :
      (request : Request) (caller : Principal) (raw : String) (w : World d)
      → (logout d ip cidrs request (some caller) raw w).1.redis
        ≡ (block_token d.redis
            (check_link d w)
            caller.jti
            (remaining_access_ttl caller.expires_at (d.platform.now w.calls))
            w.redis).1
  unfolding logout
  logout-redis request caller raw w =
      let (done, sent) =
        logout_user-redis d raw caller.jti
          (remaining_access_ttl caller.expires_at (d.platform.now w.calls))
          (from_request ip cidrs request (some caller)) (tick d w) in
      ap (λ (r : Result (Response (Unit {0})) × World d). r.1.redis) (continue-done _ _ tt done)
      ∙ sent

  -- An access token of a user, with an identifier and instants that a token can carry and issued no
  -- later than the logout, is refused after its bearer has logged out, until its second of expiry,
  -- whatever refresh token the logout named, if Redis was up for the logout and is up for the
  -- check, the clock does not go back, and Redis still holds what the logout left there.
  pub logout_refuses :
      (user : ℕ) (request : Request) (raw : String) (w w' : World d) (p : Payload)
      → IsCarried p
      → p.sub ≡ str_of (suc user)
      → FollowsLogout request (bearer user p) raw w w'
      → p.iat ≤ d.platform.now w.calls
      → (check_link d w').now < p.exp / 1000000 * 1000000
      → (authenticate d (d.jwt.encode p d.settings.jwt_secret) w').0 ≡ err (raised invalid_token)
  logout_refuses user request raw w w' p carried sub (up, up', a, b, c, same) issued alive =
      let now : ℕ = d.platform.now w.calls in
      let ttl : ℕ = remaining_access_ttl (pos (p.exp / 1000000)) now in
      let (some_time, reaches) =
        remaining_access_ttl-reaches (p.exp / 1000000) now (omega (arith, alive, a, b, c)) in
      let blocked =
        block_token-is_blocked d.redis (check_link d w) (check_link d w') p.jti "" (suc user) ttl
          (pos (p.iat / 1000000)) w.redis up up' some_time (omega (arith, b, c))
          (omega (arith, alive, reaches, a)) (λ e. carried.token_id (sym e)) in
      let refused : blocked_now d w' p.jti (suc user) (pos (p.iat / 1000000)) ≡ ok true =
        rw (same, logout-redis request (bearer user p) raw w) blocked.0 in
      authenticate-encode d p user w' carried sub (omega (arith, issued, a, b))
        (omega (arith, alive, c))
      ∙ ap (admission d (suc user) (claims_read p)) refused
