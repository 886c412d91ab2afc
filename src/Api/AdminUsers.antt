-- ===== src/Api/AdminUsers.antt =====
-- apps/authz/api/routers/admin_users.py: the views that manage users, each behind its permission.
use django_ninja_rbac_authen.Prelude.{
  ℕ, Option, none, some, List, String, ℤ, pos, negsuc, ltb, if◌then◌else◌,
}
use django_ninja_rbac_authen.Effects.{pure, lift, ◌>>=◌, ◌>>◌}
use django_ninja_rbac_authen.Platform.{Deployment}
use django_ninja_rbac_authen.World.{Service}
use django_ninja_rbac_authen.Guard.{Principal, require_permission}
use django_ninja_rbac_authen.ClientIp.{IpLibrary, Request, from_request}
use django_ninja_rbac_authen.AuditLogs.{AuditContext}
use django_ninja_rbac_authen.AdminService
use django_ninja_rbac_authen.AdminService.{UserUpdate}
use django_ninja_rbac_authen.Api.Envelope.{Response, success_response, fine, created}
use django_ninja_rbac_authen.Api.Schemas.{
  RegisterIn, UserUpdateIn, UserOut, PageOut, user_out, traverse,
}
use django_ninja_rbac_authen.Api.AuthRouter.{principal}

-- `max(offset, 0)`
abbrev pub clamp_offset : ℤ → ℕ
clamp_offset (pos n) = n
clamp_offset (negsuc _) = 0

-- `min(max(limit, 1), 100)`
abbrev pub clamp_limit : ℤ → ℕ
clamp_limit (pos n) = if ltb n 1 then 1 else if ltb 100 n then 100 else n
clamp_limit (negsuc _) = 1

-- `_pagination` of both administrative routers
unfoldable pub pagination : ℤ → ℤ → ℕ × ℕ
pagination offset limit = (clamp_offset offset, clamp_limit limit)

-- A page of rows with its envelope.
abbrev pub page_out : {A : Type 0} → List A → ℕ → ℕ → ℕ → PageOut A
page_out items total offset limit = record {
  items = items;
  total = total;
  offset = offset;
  limit = limit;
}

module _ (d : Deployment) (ip : IpLibrary) (cidrs : List String) where
  -- `_audit_context`
  audit_context : Request → Option Principal → Service d AuditContext
  unfolding from_request
  audit_context request auth = do
    p ← principal d auth
    pure (from_request ip cidrs request (some p))

  unfoldable pub list_users_view : ℤ → ℤ → Service d (Response (PageOut UserOut))
  unfolding AdminService.list_users traverse user_out pagination
  list_users_view offset limit = do
    let (first, size) = pagination offset limit
    found ← AdminService.list_users d first size
    items ← lift (traverse (user_out d.platform) found.0)
    pure (fine (success_response (some (page_out items found.1 first size)) 200 "Users fetched."))

  unfoldable pub list_users : Option Principal → ℤ → ℤ → Service d (Response (PageOut UserOut))
  unfolding list_users_view require_permission
  list_users auth offset limit =
      require_permission d "user.read" auth (list_users_view offset limit)

  create_user_view : Request → Option Principal → RegisterIn → Service d (Response UserOut)
  unfolding AdminService.create_user audit_context user_out
  create_user_view request auth payload = do
    context ← audit_context request auth
    user ← AdminService.create_user d payload.email payload.password context
    out ← lift (user_out d.platform user)
    pure (created (success_response (some out) 201 "User created."))

  unfoldable pub create_user :
      Request → Option Principal → RegisterIn → Service d (Response UserOut)
  unfolding create_user_view require_permission
  create_user request auth payload =
      require_permission d "user.create" auth (create_user_view request auth payload)

  get_user_view : ℕ → Service d (Response UserOut)
  unfolding AdminService.get_user user_out
  get_user_view user_id = do
    user ← AdminService.get_user d user_id
    out ← lift (user_out d.platform user)
    pure (fine (success_response (some out) 200 "User fetched."))

  unfoldable pub get_user : Option Principal → ℕ → Service d (Response UserOut)
  unfolding get_user_view require_permission
  get_user auth user_id = require_permission d "user.read" auth (get_user_view user_id)

  update_user_view : Request → Option Principal → ℕ → UserUpdateIn → Service d (Response UserOut)
  unfolding AdminService.update_user audit_context user_out
  update_user_view request auth user_id payload = do
    context ← audit_context request auth
    user ←
        AdminService.update_user d user_id
          (record {
            email = payload.email;
            password = payload.password;
            is_active = payload.is_active;
          })
          context
    out ← lift (user_out d.platform user)
    pure (fine (success_response (some out) 200 "User updated."))

  unfoldable pub update_user :
      Request → Option Principal → ℕ → UserUpdateIn → Service d (Response UserOut)
  unfolding update_user_view require_permission
  update_user request auth user_id payload =
      require_permission d "user.update" auth (update_user_view request auth user_id payload)

  delete_user_view : Request → Option Principal → ℕ → Service d (Response (Unit {0}))
  unfolding AdminService.delete_user audit_context
  delete_user_view request auth user_id = do
    context ← audit_context request auth
    AdminService.delete_user d user_id context
    pure (fine (success_response none 200 "User deleted."))

  unfoldable pub delete_user : Request → Option Principal → ℕ → Service d (Response (Unit {0}))
  unfolding delete_user_view require_permission
  delete_user request auth user_id =
      require_permission d "user.delete" auth (delete_user_view request auth user_id)

  assign_role_view : Request → Option Principal → ℕ → ℕ → Service d (Response (Unit {0}))
  unfolding AdminService.assign_role audit_context
  assign_role_view request auth user_id role_id = do
    context ← audit_context request auth
    AdminService.assign_role d user_id role_id context
    pure (fine (success_response none 200 "Role assigned."))

  unfoldable pub assign_role : Request → Option Principal → ℕ → ℕ → Service d (Response (Unit {0}))
  unfolding assign_role_view require_permission
  assign_role request auth user_id role_id =
      require_permission d "role.assign" auth (assign_role_view request auth user_id role_id)
