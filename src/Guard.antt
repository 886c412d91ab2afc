-- ===== src/Guard.antt =====
-- apps/authz/api/auth.py: the principal of a request, the bearer authentication, and the permission
-- check in front of a view.
pub mod Access
pub mod Authorization
use Prim.Native.Char.{code}
use Prim.Native.String as Text
use django_ninja_rbac_authen.Prelude.{
  ℕ, zero, suc, Bool, true, false, not, Option, none, some, List, String, str_eq, ◌==◌, ℤ, pos,
  negsuc, if◌then◌else◌,
}
use django_ninja_rbac_authen.Errors.{raised, invalid_token, permission_denied}
use django_ninja_rbac_authen.Effects.{Result, ok, err, pure, raise, lift, ◌>>=◌, ◌>>◌}
use django_ninja_rbac_authen.Decimal.{int_of}
use django_ninja_rbac_authen.Blocklist.{is_blocked}
use django_ninja_rbac_authen.Platform.{Deployment}
use django_ninja_rbac_authen.Jwt.{AccessTokenClaims, decode_access_token}
use django_ninja_rbac_authen.Jwt.Sorting.{contains}
use django_ninja_rbac_authen.World.{Service, read_clock, on_redis}

pub record Principal : Type 0 where
  pub user_id : ℕ
  pub jti : String
  pub issued_at : ℤ
  pub expires_at : ℤ
  pub roles : List String
  pub permissions : List String

-- `int(claims.subject)`, and `user_id <= 0` refused.
abbrev pub positive_id : Option ℤ → Option ℕ
positive_id none = none
positive_id (some (negsuc n)) = none
positive_id (some (pos zero)) = none
positive_id (some (pos (suc n))) = some (suc n)

abbrev pub principal_of : ℕ → AccessTokenClaims → Principal
principal_of user_id c = record {
  user_id = user_id;
  jti = c.token_id;
  issued_at = c.issued_at;
  expires_at = c.expires_at;
  roles = c.roles;
  permissions = c.permissions;
}

-- The text up to the first space, and the text behind it: `split(" ")`, and `" ".join` of the rest.
unfoldable pub split_scheme : String → String × String
split_scheme Text.[] = (Text.[], Text.[])
split_scheme (Text.◌∷◌ c s) =
    let (scheme, rest) = split_scheme s in
    if code c == b' ' then (Text.[], s) else (Text.◌∷◌ c scheme, rest)

module _ (d : Deployment) where
  admit : AccessTokenClaims → Option ℕ → Service d Principal
  unfolding is_blocked
  admit claims none = raise (raised invalid_token)
  admit claims (some user_id) = do
    blocked ← on_redis d (λ link. is_blocked d.redis link claims.token_id user_id claims.issued_at)
    if blocked then raise (raised invalid_token) else pure (principal_of user_id claims)

  -- `JWTAuth.authenticate`
  unfoldable pub authenticate : String → Service d Principal
  unfolding decode_access_token admit int_of
  authenticate token = do
    now ← read_clock d
    claims ← lift (decode_access_token d.jwt token d.settings.jwt_secret now)
    admit claims (positive_id (int_of claims.subject))

  found : Principal → Service d (Option Principal)
  found p = pure (some p)

  -- `JWTAuth.__call__` on the `Authorization` header; `none` is a request without credentials.
  unfoldable pub authenticate_header : Option String → Service d (Option Principal)
  unfolding authenticate split_scheme found
  authenticate_header none = pure none
  authenticate_header (some value) =
      let (scheme, token) = split_scheme value in
      if str_eq value ""
      then pure none
      else if str_eq (d.platform.lower scheme) "bearer"
      then (authenticate token >>= found)
      else pure none

  -- `require_permission`: the view runs only behind the check.
  unfoldable pub require_permission :
      {A : Type 0} → String → Option Principal → Service d A → Service d A
  require_permission permission_code none view = raise (raised permission_denied)
  require_permission permission_code (some p) view =
      if contains permission_code p.permissions then view else raise (raised permission_denied)
