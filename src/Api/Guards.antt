-- ===== src/Api/Guards.antt =====
-- apps/authz/api/routers/admin_users.py and admin_rbac.py: all routes together, each with the permission
-- that guards it.
use django_ninja_rbac_authen.Prelude.{
  ℕ, ◌≡◌, refl, Bool, false, Option, none, some, List, String, ℤ,
}
use django_ninja_rbac_authen.Errors.{raised, permission_denied}
use django_ninja_rbac_authen.Effects.{err, pure, ◌>>=◌}
use django_ninja_rbac_authen.Platform.{Deployment}
use django_ninja_rbac_authen.World.{World, Service}
use django_ninja_rbac_authen.Jwt.Sorting.{contains}
use django_ninja_rbac_authen.Guard.{Principal, require_permission}
use django_ninja_rbac_authen.ClientIp.{IpLibrary, Request}
use django_ninja_rbac_authen.Api.Envelope.{Response}
use django_ninja_rbac_authen.Api.Schemas.{RegisterIn, UserUpdateIn}
use django_ninja_rbac_authen.Api.AdminUsers
use django_ninja_rbac_authen.Api.AdminRbac
use django_ninja_rbac_authen.Api.AdminRbac.{AuditQuery}

-- A request to one of the administrative routes, with its parameters.
pub data AdminCall : Type 0 where
  users_page roles_page permissions_page : ℤ → ℤ → AdminCall
  audit_page : ℤ → ℤ → AuditQuery → AdminCall
  user_creation : RegisterIn → AdminCall
  user_detail user_deletion : ℕ → AdminCall
  user_change : ℕ → UserUpdateIn → AdminCall
  role_assignment : ℕ → ℕ → AdminCall

abbrev pub needed : AdminCall → String
needed (users_page _ _) = "user.read"
needed (roles_page _ _) = "role.read"
needed (permissions_page _ _) = "permission.read"
needed (audit_page _ _ _) = "audit.read"
needed (user_creation _) = "user.create"
needed (user_detail _) = "user.read"
needed (user_deletion _) = "user.delete"
needed (user_change _ _) = "user.update"
needed (role_assignment _ _) = "role.assign"

abbrev pub has_permission : String → Option Principal → Bool
has_permission code none = false
has_permission code (some p) = contains code p.permissions

module _ (d : Deployment) (ip : IpLibrary) (cidrs : List String) where
  -- The status of the view's response.
  abbrev status_of : {A : Type 0} → Service d (Response A) → Service d ℕ
  status_of view = do r ← view; pure r.status

  unfoldable pub serve : AdminCall → Request → Option Principal → Service d ℕ
  unfolding AdminUsers.list_users AdminUsers.create_user AdminUsers.get_user AdminUsers.update_user
      AdminUsers.delete_user AdminUsers.assign_role AdminRbac.list_roles AdminRbac.list_permissions
      AdminRbac.list_audit_logs
  serve (users_page offset limit) request auth =
      status_of (AdminUsers.list_users d ip cidrs auth offset limit)
  serve (roles_page offset limit) request auth =
      status_of (AdminRbac.list_roles d auth offset limit)
  serve (permissions_page offset limit) request auth =
      status_of (AdminRbac.list_permissions d auth offset limit)
  serve (audit_page offset limit query) request auth =
      status_of (AdminRbac.list_audit_logs d auth offset limit query)
  serve (user_creation payload) request auth =
      status_of (AdminUsers.create_user d ip cidrs request auth payload)
  serve (user_detail user_id) request auth = status_of (AdminUsers.get_user d ip cidrs auth user_id)
  serve (user_deletion user_id) request auth =
      status_of (AdminUsers.delete_user d ip cidrs request auth user_id)
  serve (user_change user_id payload) request auth =
      status_of (AdminUsers.update_user d ip cidrs request auth user_id payload)
  serve (role_assignment user_id role_id) request auth =
      status_of (AdminUsers.assign_role d ip cidrs request auth user_id role_id)

  require_permission-denied :
      {A : Type 0} (code : String) (auth : Option Principal) (view : Service d A) (w : World d)
      → has_permission code auth ≡ false
      → require_permission d code auth view w ≡ (err (raised permission_denied), w)
  unfolding require_permission
  require_permission-denied code none view w h = refl
  require_permission-denied code (some p) view w h = rw h refl

  denied :
      {A : Type 0} (code : String) (auth : Option Principal) (view : Service d (Response A))
      (w : World d)
      → has_permission code auth ≡ false
      → status_of (require_permission d code auth view) w ≡ (err (raised permission_denied), w)
  denied code auth view w h = rw (require_permission-denied code auth view w h) refl

  -- A caller whose token does not carry the permission of an administrative route gets
  -- PermissionDenied, and the state is left as it was.
  pub admin_denied :
      (call : AdminCall) (request : Request) (auth : Option Principal) (w : World d)
      → has_permission (needed call) auth ≡ false
      → serve call request auth w ≡ (err (raised permission_denied), w)
  unfolding serve AdminUsers.list_users AdminUsers.create_user AdminUsers.get_user
      AdminUsers.update_user AdminUsers.delete_user AdminUsers.assign_role AdminRbac.list_roles
      AdminRbac.list_permissions AdminRbac.list_audit_logs
  admin_denied (users_page offset limit) request auth w h = denied _ auth _ w h
  admin_denied (roles_page offset limit) request auth w h = denied _ auth _ w h
  admin_denied (permissions_page offset limit) request auth w h = denied _ auth _ w h
  admin_denied (audit_page offset limit query) request auth w h = denied _ auth _ w h
  admin_denied (user_creation payload) request auth w h = denied _ auth _ w h
  admin_denied (user_detail user_id) request auth w h = denied _ auth _ w h
  admin_denied (user_deletion user_id) request auth w h = denied _ auth _ w h
  admin_denied (user_change user_id payload) request auth w h = denied _ auth _ w h
  admin_denied (role_assignment user_id role_id) request auth w h = denied _ auth _ w h
