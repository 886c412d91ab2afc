-- ===== src/Api/AdminRbac.antt =====
-- apps/authz/api/routers/admin_rbac.py: the views that list roles, permissions and the audit trail, each
-- behind its permission.
use django_ninja_rbac_authen.Prelude.{ℕ, Option, none, some, String, ℤ}
use django_ninja_rbac_authen.Effects.{pure, lift, ◌>>=◌}
use django_ninja_rbac_authen.Platform.{Deployment}
use django_ninja_rbac_authen.World.{Service}
use django_ninja_rbac_authen.Guard.{Principal, require_permission}
use django_ninja_rbac_authen.AuditLogs.{AuditAction, AuditFilter, action_code}
use django_ninja_rbac_authen.AdminService
use django_ninja_rbac_authen.Api.Envelope.{Response, success_response, fine}
use django_ninja_rbac_authen.Api.Schemas.{
  RoleOut, PermissionOut, AuditLogOut, PageOut, role_out, permission_out, audit_log_out, traverse,
}
use django_ninja_rbac_authen.Api.AdminUsers.{pagination, page_out}

abbrev code? : Option AuditAction → Option String
code? none = none
code? (some a) = some (action_code a)

-- The filters in the query of `list_audit_logs`.
pub record AuditQuery : Type 0 where
  pub actor_id : Option ℕ
  pub action : Option AuditAction
  pub outcome : Option String
  pub from_at : Option ℕ
  pub to_at : Option ℕ

abbrev pub filter_of : AuditQuery → AuditFilter
filter_of q = record {
  actor_id = q.actor_id;
  action = code? q.action;
  outcome = q.outcome;
  from_at = q.from_at;
  to_at = q.to_at;
}

module _ (d : Deployment) where
  list_roles_view : ℤ → ℤ → Service d (Response (PageOut RoleOut))
  unfolding AdminService.list_roles traverse pagination
  list_roles_view offset limit = do
    let (first, size) = pagination offset limit
    found ← AdminService.list_roles d first size
    items ← lift (traverse role_out found.0)
    pure (fine (success_response (some (page_out items found.1 first size)) 200 "Roles fetched."))

  unfoldable pub list_roles : Option Principal → ℤ → ℤ → Service d (Response (PageOut RoleOut))
  unfolding list_roles_view require_permission
  list_roles auth offset limit =
      require_permission d "role.read" auth (list_roles_view offset limit)

  list_permissions_view : ℤ → ℤ → Service d (Response (PageOut PermissionOut))
  unfolding AdminService.list_permissions traverse pagination
  list_permissions_view offset limit = do
    let (first, size) = pagination offset limit
    found ← AdminService.list_permissions d first size
    items ← lift (traverse permission_out found.0)
    pure (
        fine
          (success_response (some (page_out items found.1 first size)) 200 "Permissions fetched."))

  unfoldable pub list_permissions :
      Option Principal → ℤ → ℤ → Service d (Response (PageOut PermissionOut))
  unfolding list_permissions_view require_permission
  list_permissions auth offset limit =
      require_permission d "permission.read" auth (list_permissions_view offset limit)

  list_audit_logs_view : ℤ → ℤ → AuditQuery → Service d (Response (PageOut AuditLogOut))
  unfolding AdminService.list_audit_logs traverse audit_log_out pagination
  list_audit_logs_view offset limit query = do
    let (first, size) = pagination offset limit
    found ← AdminService.list_audit_logs d first size (filter_of query)
    items ← lift (traverse (audit_log_out d.platform) found.0)
    pure (
        fine
          (success_response (some (page_out items found.1 first size)) 200 "Audit logs fetched."))

  unfoldable pub list_audit_logs :
      Option Principal → ℤ → ℤ → AuditQuery → Service d (Response (PageOut AuditLogOut))
  unfolding list_audit_logs_view require_permission
  list_audit_logs auth offset limit query =
      require_permission d "audit.read" auth (list_audit_logs_view offset limit query)
