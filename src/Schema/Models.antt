-- ===== src/Schema/Models.antt =====
-- The models of the three apps by their names, as apps/accounts/models.py, apps/authz/models.py and
-- apps/audit/models.py declare them.
use django_ninja_rbac_authen.Prelude.{String, ◌≡◌}
use django_ninja_rbac_authen.Schema.{Label, label, Fields, lookup, Model}
use django_ninja_rbac_authen.Schema.Accounts.{user_model}
use django_ninja_rbac_authen.Schema.Audit.{audit_log_model}
use django_ninja_rbac_authen.Schema.Authz.{
  permission_model, role_model, user_role_model, role_permission_model, refresh_token_model,
}
use django_ninja_rbac_authen.Schema.History.{App, accounts, audit, authz, app_label}

pub data ModelName : Type 0 where
  user permission role user_role role_permission refresh_token audit_log : ModelName

abbrev pub class_name : ModelName → String
class_name user = "User"
class_name permission = "Permission"
class_name role = "Role"
class_name user_role = "UserRole"
class_name role_permission = "RolePermission"
class_name refresh_token = "RefreshToken"
class_name audit_log = "AuditLog"

abbrev pub app_of_model : ModelName → App
app_of_model user = accounts
app_of_model audit_log = audit
app_of_model _ = authz

abbrev pub label_of : ModelName → Label
label_of k = label (app_label (app_of_model k)) (class_name k)

-- The declaration of a model; `User` begins with the fields of its base classes.
abbrev pub declared : Fields → ModelName → Model
declared inherited user = user_model inherited
declared inherited permission = permission_model
declared inherited role = role_model
declared inherited user_role = user_role_model
declared inherited role_permission = role_permission_model
declared inherited refresh_token = refresh_token_model
declared inherited audit_log = audit_log_model

-- The same field under every name, and the same indexes and constraints.
pub record SameModel (m n : Model) : Type 0 where
  pub fields : (name : String) → lookup name m.fields ≡ lookup name n.fields
  pub indexes : m.indexes ≡ n.indexes
  pub constraints : m.constraints ≡ n.constraints
