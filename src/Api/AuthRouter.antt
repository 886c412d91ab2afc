-- ===== src/Api/AuthRouter.antt =====
-- apps/authz/api/routers/auth.py: the views in front of the authentication service. Each takes the
-- request and, where it needs one, the principal in `request.auth`.
use django_ninja_rbac_authen.Prelude.{
  ℕ, ◌+◌, ◌-◌, ◌*◌, ◌/◌, true, Option, none, some, List, String, ℤ, pos, negsuc,
}
use django_ninja_rbac_authen.Errors.{runtime_error}
use django_ninja_rbac_authen.Effects.{pure, raise, lift, ◌>>=◌, ◌>>◌}
use django_ninja_rbac_authen.Platform.{Deployment}
use django_ninja_rbac_authen.Jwt.{sorted_set}
use django_ninja_rbac_authen.World.{Service, read_clock}
use django_ninja_rbac_authen.Guard.{Principal}
use django_ninja_rbac_authen.ClientIp.{IpLibrary, Request, from_request}
use django_ninja_rbac_authen.AuthService
use django_ninja_rbac_authen.AuthService.{TokenPair, register_user}
use django_ninja_rbac_authen.Sessions
use django_ninja_rbac_authen.Sessions.{logout_user, aget_active_email}
use django_ninja_rbac_authen.Api.Envelope.{Response, success_response, fine, created}
use django_ninja_rbac_authen.Api.Schemas.{
  RegisterIn, TokenPairOut, MeOut, UserOut, user_out, me_out, token_pair_response,
}

-- `max(0, ceil((principal.expires_at - now).total_seconds()))` at an instant
unfoldable pub remaining_access_ttl : ℤ → ℕ → ℕ
remaining_access_ttl (pos expires_at) now = (expires_at * 1000000 - now + 999999) / 1000000
remaining_access_ttl (negsuc _) now = 0

module _ (d : Deployment) where
  -- `_principal`
  abbrev pub principal : Option Principal → Service d Principal
  principal none = raise (runtime_error "JWTAuth did not supply a principal")
  principal (some p) = pure p

module _ (d : Deployment) (ip : IpLibrary) (cidrs : List String) where
  unfoldable pub register : Request → RegisterIn → Service d (Response UserOut)
  unfolding register_user from_request user_out
  register request payload = do
    user ← register_user d payload.email payload.password (from_request ip cidrs request none) true
    out ← lift (user_out d.platform user)
    pure (created (success_response (some out) 201 "User registered."))

  unfoldable pub login : Request → RegisterIn → Service d (Response TokenPairOut)
  unfolding AuthService.login from_request
  login request payload = do
    pair ← AuthService.login d payload.email payload.password (from_request ip cidrs request none)
    pure (fine (success_response (some (token_pair_response pair)) 200 "Authenticated."))

  unfoldable pub refresh : Request → String → Service d (Response TokenPairOut)
  unfolding Sessions.refresh from_request
  refresh request refresh_token = do
    pair ← Sessions.refresh d refresh_token (from_request ip cidrs request none)
    pure (fine (success_response (some (token_pair_response pair)) 200 "Token refreshed."))

  unfoldable pub logout : Request → Option Principal → String → Service d (Response (Unit {0}))
  unfolding logout_user from_request remaining_access_ttl
  logout request auth refresh_token = do
    p ← principal d auth
    now ← read_clock d
    logout_user d refresh_token (from_request ip cidrs request (some p)) (some p.jti)
        (some (remaining_access_ttl p.expires_at now))
    pure (fine (success_response none 200 "Logged out."))

  unfoldable pub logout_all : Request → Option Principal → Service d (Response (Unit {0}))
  unfolding Sessions.logout_all from_request
  logout_all request auth = do
    p ← principal d auth
    Sessions.logout_all d p.user_id (from_request ip cidrs request (some p))
    pure (fine (success_response none 200 "Logged out from all sessions."))

  unfoldable pub me : Option Principal → Service d (Response MeOut)
  unfolding aget_active_email me_out sorted_set
  me auth = do
    p ← principal d auth
    email ← aget_active_email d p.user_id
    out ← lift (me_out d.platform p.user_id email (sorted_set p.roles) (sorted_set p.permissions))
    pure (fine (success_response (some out) 200 "Profile fetched."))
