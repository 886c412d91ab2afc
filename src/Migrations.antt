-- ===== src/Migrations.antt =====
-- apps/authz/permissions.py, and the data migrations of apps/authz/migrations (0002, 0005 and 0006) over
-- the rows of the role and permission tables. A sequence gives the keys 1, 2, 3, … to new rows.
pub mod Agreement
pub mod Administrator
pub mod Reversal
use django_ninja_rbac_authen.Prelude.{
  ◌≡◌, refl, ℕ, suc, Bool, true, false, not, ◌&&◌, Option, none, some, List, [], ◌∷◌, ◌++◌, String,
  str_eq, ◌==◌, find, any, select, length, if◌then◌else◌,
}
use django_ninja_rbac_authen.Errors.{key_error}
use django_ninja_rbac_authen.Effects.{ok, err, Action, pure, raise, gets, ◌>>=◌, ◌>>◌}
use django_ninja_rbac_authen.Jwt.Sorting.{contains}
use django_ninja_rbac_authen.Rbac.{Role, Permission, RolePermission, RbacTables, agrant_permission}

-- `PermissionCode`
pub data PermissionCode : Type 0 where
  user_create user_read user_update user_delete role_assign role_read permission_read audit_read :
      PermissionCode

abbrev pub permission_code : PermissionCode → String
permission_code user_create = "user.create"
permission_code user_read = "user.read"
permission_code user_update = "user.update"
permission_code user_delete = "user.delete"
permission_code role_assign = "role.assign"
permission_code role_read = "role.read"
permission_code permission_read = "permission.read"
permission_code audit_read = "audit.read"

-- `RoleName`
pub data RoleName : Type 0 where
  admin user : RoleName

abbrev pub role_name : RoleName → String
role_name admin = "admin"
role_name user = "user"

abbrev pub codes_of_all : List PermissionCode → List String
codes_of_all [] = []
codes_of_all (p ∷ ps) = permission_code p ∷ codes_of_all ps

abbrev pub every_code : List PermissionCode
every_code =
    user_create ∷ user_read ∷ user_update ∷ user_delete ∷ role_assign ∷ role_read ∷ permission_read
    ∷ audit_read ∷ []

-- `PERMISSION_CATALOG`
abbrev pub permission_catalog : List String
permission_catalog = codes_of_all every_code

-- `DEFAULT_ROLE_PERMISSIONS`
abbrev pub default_role_permissions : RoleName → List String
default_role_permissions admin = permission_catalog
default_role_permissions user = []

-- `PERMISSION_CODES` and `DEFAULT_ROLE_PERMISSIONS` of 0002
abbrev seed_codes : List String
seed_codes =
    "user.create" ∷ "user.read" ∷ "user.update" ∷ "user.delete" ∷ "role.assign" ∷ "role.read"
    ∷ "permission.read" ∷ []

abbrev seed_roles : List (String × List String)
seed_roles = ("admin", seed_codes) ∷ ("user", "user.read" ∷ []) ∷ []

abbrev pub has_code : String → Permission → Bool
has_code code p = str_eq p.code code

abbrev pub has_name : String → Role → Bool
has_name name r = str_eq r.name name

abbrev permission_or_new : String → Option Permission → Action RbacTables Permission
permission_or_new code (some p) = pure p
permission_or_new code none = λ (s : RbacTables).
    let p : Permission = record { id = suc (length s.permissions); code = code } in
    (ok p, record s { permissions = s.permissions ++ p ∷ [] })

-- `Permission.objects.get_or_create`
unfoldable pub get_or_create_permission : String → Action RbacTables Permission
get_or_create_permission code =
    λ (s : RbacTables). permission_or_new code (find (has_code code) s.permissions) s

abbrev role_or_new : String → Option Role → Action RbacTables Role
role_or_new name (some r) = pure r
role_or_new name none = λ (s : RbacTables).
    let r : Role = record { id = suc (length s.roles); name = name } in
    (ok r, record s { roles = s.roles ++ r ∷ [] })

-- `Role.objects.get_or_create`
unfoldable pub get_or_create_role : String → Action RbacTables Role
get_or_create_role name = λ (s : RbacTables). role_or_new name (find (has_name name) s.roles) s

-- `permissions[code]`
abbrev pub lookup_permission : String → List Permission → Action RbacTables Permission
lookup_permission code ps = elim (find (has_code code) ps) [
  | none ↦ raise key_error
  | some p ↦ pure p
]

unfoldable pub seed_permissions : List String → Action RbacTables (List Permission)
unfolding get_or_create_permission
seed_permissions [] = pure []
seed_permissions (code ∷ codes) = do
  p ← get_or_create_permission code
  ps ← seed_permissions codes
  pure (p ∷ ps)

unfoldable pub grant_all : Role → List String → List Permission → Action RbacTables (Unit {0})
unfolding agrant_permission
grant_all role [] ps = pure tt
grant_all role (code ∷ codes) ps = do
  p ← lookup_permission code ps
  agrant_permission role.id p.id
  grant_all role codes ps

unfoldable pub seed_role_permissions :
    List (String × List String) → List Permission → Action RbacTables (Unit {0})
unfolding get_or_create_role grant_all
seed_role_permissions [] ps = pure tt
seed_role_permissions ((name, codes) ∷ roles) ps = do
  role ← get_or_create_role name
  grant_all role codes ps
  seed_role_permissions roles ps

-- 0002
unfoldable pub seed_roles_and_permissions : Action RbacTables (Unit {0})
unfolding seed_permissions seed_role_permissions
seed_roles_and_permissions = do
  ps ← seed_permissions seed_codes
  seed_role_permissions seed_roles ps

-- Whether the grant is of this code to the role of this name.
abbrev pub grants : String → String → RbacTables → RolePermission → Bool
grants name code s g =
    any (λ r. has_name name r && r.id == g.role_id) s.roles
    && any (λ p. has_code code p && p.id == g.permission_id) s.permissions

-- 0005
unfoldable pub remove_default_user_admin_permission : Action RbacTables (Unit {0})
remove_default_user_admin_permission = λ (s : RbacTables). (
  ok tt,
  record s {
    role_permissions = select (λ g. not (grants "user" "user.read" s g)) s.role_permissions;
  },
)

abbrev grant_found : Option Role → Option Permission → Action RbacTables (Unit {0})
unfolding agrant_permission
grant_found (some r) (some p) = do agrant_permission r.id p.id; pure tt
grant_found _ _ = pure tt

-- 0006
unfoldable pub add_audit_read_permission : Action RbacTables (Unit {0})
unfolding get_or_create_permission grant_found
add_audit_read_permission = do
  p ← get_or_create_permission "audit.read"
  role ← gets (λ (s : RbacTables). find (has_name "admin") s.roles)
  grant_found role (some p)

-- 0005, reversed
unfoldable pub restore_default_user_admin_permission : Action RbacTables (Unit {0})
unfolding grant_found
restore_default_user_admin_permission = do
  role ← gets (λ (s : RbacTables). find (has_name "user") s.roles)
  p ← gets (λ (s : RbacTables). find (has_code "user.read") s.permissions)
  grant_found role p

-- The deletion of a permission takes its grants with it.
unfoldable pub delete_permission : Option Permission → Action RbacTables (Unit {0})
delete_permission none = pure tt
delete_permission (some p) = λ (s : RbacTables). (
  ok tt,
  record s {
    permissions = select (λ q. not (q.id == p.id)) s.permissions;
    role_permissions = select (λ g. not (g.permission_id == p.id)) s.role_permissions;
  },
)

-- 0006, reversed
unfoldable pub remove_audit_read_permission : Action RbacTables (Unit {0})
unfolding delete_permission
remove_audit_read_permission = do
  p ← gets (λ (s : RbacTables). find (has_code "audit.read") s.permissions)
  delete_permission p

-- 0002, reversed: the roles and permissions of the seed with their links and grants
unfoldable pub unseed_roles_and_permissions : Action RbacTables (Unit {0})
unseed_roles_and_permissions = λ (s : RbacTables).
    let gone = λ (r : Role). contains r.name ("admin" ∷ "user" ∷ []) in
    let lost = λ (p : Permission). contains p.code seed_codes in
    let is_gone = λ (id : ℕ). any (λ (r : Role). gone r && r.id == id) s.roles in
    let is_lost = λ (id : ℕ). any (λ (p : Permission). lost p && p.id == id) s.permissions in
    (
      ok tt,
      record s {
        roles = select (λ r. not (gone r)) s.roles;
        permissions = select (λ p. not (lost p)) s.permissions;
        user_roles = select (λ l. not (is_gone l.role_id)) s.user_roles;
        role_permissions =
            select (λ g. not (is_gone g.role_id) && not (is_lost g.permission_id))
              s.role_permissions;
      },
    )

-- All of them in their order, as `migrate` runs them.
unfoldable pub migrate : Action RbacTables (Unit {0})
unfolding seed_roles_and_permissions remove_default_user_admin_permission add_audit_read_permission
migrate = do
  seed_roles_and_permissions
  remove_default_user_admin_permission
  add_audit_read_permission

-- The order of the three, for proofs that keep them shut.
pub migrate_lem :
    (s : RbacTables)
    → migrate s
      ≡ (do
        seed_roles_and_permissions
        remove_default_user_admin_permission
        add_audit_read_permission)
          s
unfolding migrate
migrate_lem s = refl
