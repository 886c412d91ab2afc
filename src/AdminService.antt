-- ===== src/AdminService.antt =====
-- apps/accounts/services/admin.py: managing users and their roles.
pub mod Assignment
pub mod Deletion
pub mod Deactivation
use django_ninja_rbac_authen.Prelude.{
  ℕ, Bool, true, false, not, ◌&&◌, Option, none, some, List, [], ◌∷◌, ◌++◌, String, is_none,
  if◌then◌else◌, pos,
}
use django_ninja_rbac_authen.Errors.{
  Error, DomainClass, integrity_error, domain, domain_error, raised, email_already_exists,
  resource_not_found,
}
use django_ninja_rbac_authen.Effects.{Result, ok, err, pure, raise, when, try_except, ◌>>=◌, ◌>>◌}
use django_ninja_rbac_authen.Metadata.{int, str, arr, Metadata, end, field}
use django_ninja_rbac_authen.Platform.{Deployment, texts}
use django_ninja_rbac_authen.Blocklist.{revoke_user}
use django_ninja_rbac_authen.Users
use django_ninja_rbac_authen.Users.{UserDto, UserChanges, aupdate}
use django_ninja_rbac_authen.Rbac
use django_ninja_rbac_authen.Rbac.{RoleDto, PermissionDto, aget_role_by_id, aassign_role}
use django_ninja_rbac_authen.AuditLogs
use django_ninja_rbac_authen.AuditLogs.{
  AuditAction, AuditContext, AuditFilter, AuditLogDto, user_create, user_update, user_delete,
  role_assign,
}
use django_ninja_rbac_authen.Registration.{adelete}
use django_ninja_rbac_authen.World.{
  Service, read_clock, hash_password, on_users, on_rbac, on_audit, on_db, on_redis,
}
use django_ninja_rbac_authen.AuditService.{Event, success, record_event}
use django_ninja_rbac_authen.AuthService.{access_token_ttl_seconds, register_user}

abbrev pub not_found : String → Error
not_found detail = domain (domain_error resource_not_found (some detail))

-- An event about a user.
abbrev pub user_event : AuditAction → ℕ → Option Metadata → Event
user_event a id m = record {
  action = a;
  target_type = some "user";
  target_id = some id;
  outcome = success;
  metadata = m;
}

abbrev named {ℓ} : {A : Type ℓ} → String → Option A → List String → List String
named name none rest = rest
named name (some _) rest = name ∷ rest

-- `sorted(fields)`
abbrev pub changed_fields : UserChanges → List String
changed_fields c =
    named "email" c.email (named "is_active" c.is_active (named "password" c.password []))

-- The arguments of `update_user` that may be left out.
pub record UserUpdate : Type 0 where
  pub email : Option String
  pub password : Option String
  pub is_active : Option Bool

abbrev pub is_deactivation : Option Bool → Bool
is_deactivation (some false) = true
is_deactivation _ = false

abbrev pub is_empty : UserChanges → Bool
is_empty c = is_none c.email && is_none c.password && is_none c.is_active

abbrev is_integrity_error : Error → Bool
is_integrity_error integrity_error = true
is_integrity_error _ = false

module _ (d : Deployment) where
  open d use {platform, redis}

  unfoldable pub create_user : String → String → AuditContext → Service d UserDto
  unfolding register_user record_event
  create_user email password context = do
    user ← register_user d email password context false
    record_event d (user_event user_create user.id none) context
    pure user

  user_or_raise : Option UserDto → Service d UserDto
  user_or_raise none = raise (not_found "User not found.")
  user_or_raise (some u) = pure u

  unfoldable pub get_user : ℕ → Service d UserDto
  unfolding Users.aget_by_id user_or_raise
  get_user user_id = do user ← on_users d (Users.aget_by_id user_id); user_or_raise user

  unfoldable pub list_users : ℕ → ℕ → Service d (List UserDto × ℕ)
  unfolding Users.alist Users.acount
  list_users offset limit = do
    users ← on_users d (Users.alist offset limit)
    total ← on_users d Users.acount
    pure (users, total)

  unfoldable pub list_roles : ℕ → ℕ → Service d (List RoleDto × ℕ)
  unfolding Rbac.alist_roles Rbac.acount_roles
  list_roles offset limit = do
    roles ← on_rbac d (Rbac.alist_roles offset limit)
    total ← on_rbac d Rbac.acount_roles
    pure (roles, total)

  unfoldable pub list_permissions : ℕ → ℕ → Service d (List PermissionDto × ℕ)
  unfolding Rbac.alist_permissions Rbac.acount_permissions
  list_permissions offset limit = do
    permissions ← on_rbac d (Rbac.alist_permissions offset limit)
    total ← on_rbac d Rbac.acount_permissions
    pure (permissions, total)

  unfoldable pub list_audit_logs : ℕ → ℕ → AuditFilter → Service d (List AuditLogDto × ℕ)
  unfolding AuditLogs.alist
  list_audit_logs offset limit filter = on_audit d (AuditLogs.alist offset limit filter)

  hash_optional : Option String → Service d (Option String)
  hash_optional none = pure none
  hash_optional (some p) = do h ← hash_password d p; pure (some h)

  -- The steps of `update_user` behind a successful update.
  after_update : UserChanges → AuditContext → Option UserDto → Service d UserDto
  unfolding revoke_user record_event
  after_update fields context none = raise (not_found "User not found.")
  after_update fields context (some u) = do
    when (is_deactivation fields.is_active) (do
      now ← read_clock d
      on_redis d (λ link. revoke_user redis link u.id now (access_token_ttl_seconds d)))
    record_event d
        (user_event user_update u.id
          (some (field "changed_fields" (arr (texts (changed_fields fields))) end)))
        context
    pure u

  apply_update : ℕ → UserChanges → AuditContext → Service d UserDto
  unfolding aupdate after_update
  apply_update user_id fields context = do
    user ←
        try_except (on_users d (aupdate platform user_id fields)) is_integrity_error
          (λ _. raise (raised email_already_exists))
    after_update fields context user

  unfoldable pub update_user : ℕ → UserUpdate → AuditContext → Service d UserDto
  unfolding hash_optional get_user apply_update
  update_user user_id update context = do
    password ← hash_optional update.password
    let fields : UserChanges = record {
      email = update.email;
      password = password;
      is_active = update.is_active;
    }
    if is_empty fields then get_user user_id else apply_update user_id fields context

  unfoldable pub delete_user : ℕ → AuditContext → Service d (Unit {0})
  unfolding adelete record_event
  delete_user user_id context = do
    deleted ← on_db d (adelete user_id)
    if deleted
        then record_event d (user_event user_delete user_id none) context
        else raise (not_found "User not found.")

  role_or_raise : Option RoleDto → Service d RoleDto
  role_or_raise none = raise (not_found "Role not found.")
  role_or_raise (some r) = pure r

  unfoldable pub assign_role : ℕ → ℕ → AuditContext → Service d (Unit {0})
  unfolding get_user aget_role_by_id role_or_raise aassign_role record_event
  assign_role user_id role_id context = do
    get_user user_id
    found ← on_rbac d (aget_role_by_id role_id)
    role ← role_or_raise found
    on_rbac d (aassign_role user_id role.id)
    record_event d
        (user_event role_assign user_id
          (some (field "role_id" (int (pos role.id)) (field "role_name" (str role.name) end))))
        context
