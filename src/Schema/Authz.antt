-- ===== src/Schema/Authz.antt =====
-- apps/authz: its migrations 0001 to 0007, and the columns of the models in models.py. What the data
-- migrations 0002, 0005 and 0006 run is in Migrations.
use django_ninja_rbac_authen.Prelude.{true, false, some, [], ◌∷◌}
use django_ninja_rbac_authen.Migrations.{
  seed_roles_and_permissions, unseed_roles_and_permissions, remove_default_user_admin_permission,
  restore_default_user_admin_permission, add_audit_read_permission, remove_audit_read_permission,
}
use django_ninja_rbac_authen.Schema.{
  char, uuid, ip_address, date_time, foreign_key, cascade, set_null, uuid4, plain, nullable,
  auto_field, label, auth_user_model, unique_fields, Model, Operation, create_model, add_field,
  remove_index, run_python, on, on_first, Migration,
}

-- The operations of 0001
abbrev create_permission : Operation
create_permission = create_model "Permission" (record {
  fields = auto_field ∷ ("code", record (plain (char 100)) { unique = true }) ∷ [];
  indexes = [];
  constraints = [];
})

abbrev create_role : Operation
create_role = create_model "Role" (record {
  fields = auto_field ∷ ("name", record (plain (char 50)) { unique = true }) ∷ [];
  indexes = [];
  constraints = [];
})

abbrev create_user_role : Operation
create_user_role = create_model "UserRole" (record {
  fields =
      auto_field
      ∷ ("role", plain (foreign_key (label "authz" "role") cascade "user_links"))
      ∷ ("user", plain (foreign_key auth_user_model cascade "role_links"))
      ∷ [];
  indexes = record { fields = "user" ∷ "role" ∷ []; name = "authz_userrole_user_role_idx" } ∷ [];
  constraints = unique_fields ("user" ∷ "role" ∷ []) "authz_user_role_unique" ∷ [];
})

abbrev create_role_permission : Operation
create_role_permission = create_model "RolePermission" (record {
  fields =
      auto_field
      ∷ ("permission", plain (foreign_key (label "authz" "permission") cascade "role_links"))
      ∷ ("role", plain (foreign_key (label "authz" "role") cascade "permission_links"))
      ∷ [];
  indexes =
      record { fields = "role" ∷ "permission" ∷ []; name = "authz_roleperm_role_perm_idx" } ∷ [];
  constraints = unique_fields ("role" ∷ "permission" ∷ []) "authz_role_permission_unique" ∷ [];
})

abbrev pub authz_0001_initial : Migration
authz_0001_initial = record {
  initial = true;
  dependencies = on_first auth_user_model.0 ∷ [];
  operations = create_permission ∷ create_role ∷ create_user_role ∷ create_role_permission ∷ [];
}

abbrev pub authz_0002_seed : Migration
authz_0002_seed = record {
  initial = false;
  dependencies = on "authz" "0001_initial" ∷ [];
  operations = run_python seed_roles_and_permissions unseed_roles_and_permissions ∷ [];
}

abbrev pub authz_0003_remove_indexes : Migration
authz_0003_remove_indexes = record {
  initial = false;
  dependencies = on "authz" "0002_seed_roles_and_permissions" ∷ [];
  operations =
      remove_index "userrole" "authz_userrole_user_role_idx"
      ∷ remove_index "rolepermission" "authz_roleperm_role_perm_idx"
      ∷ [];
}

-- The operation of 0004
abbrev create_refresh_token : Operation
create_refresh_token = create_model "RefreshToken" (record {
  fields =
      auto_field
      ∷ ("token_hash", record (plain (char 64)) { unique = true })
      ∷ ("family_id", record (plain uuid) { db_index = true; default = some uuid4 })
      ∷ ("expires_at", plain (date_time false))
      ∷ ("revoked_at", nullable (date_time false))
      ∷ ("parent", nullable (foreign_key (label "authz" "refreshtoken") set_null "children"))
      ∷ ("user", plain (foreign_key auth_user_model cascade "refresh_tokens"))
      ∷ [];
  indexes =
      record { fields = "family_id" ∷ "revoked_at" ∷ []; name = "authz_refresh_family_rev_idx" }
      ∷ [];
  constraints = [];
})

abbrev pub authz_0004_refresh_token : Migration
authz_0004_refresh_token = record {
  initial = false;
  dependencies =
      on "authz" "0003_remove_redundant_composite_indexes" ∷ on_first auth_user_model.0 ∷ [];
  operations = create_refresh_token ∷ [];
}

abbrev pub authz_0005_remove_permission : Migration
authz_0005_remove_permission = record {
  initial = false;
  dependencies = on "authz" "0004_refresh_token" ∷ [];
  operations =
      run_python remove_default_user_admin_permission restore_default_user_admin_permission ∷ [];
}

abbrev pub authz_0006_add_audit_read : Migration
authz_0006_add_audit_read = record {
  initial = false;
  dependencies = on "authz" "0005_remove_default_user_admin_permission" ∷ [];
  operations = run_python add_audit_read_permission remove_audit_read_permission ∷ [];
}

abbrev pub authz_0007_binding : Migration
authz_0007_binding = record {
  initial = false;
  dependencies = on "authz" "0006_add_audit_read_permission" ∷ [];
  operations =
      add_field "refreshtoken" "device_hash" (nullable (char 64))
      ∷ add_field "refreshtoken" "issued_ip" (nullable ip_address)
      ∷ [];
}

-- `Permission`, `Role`, `UserRole`, `RolePermission` and `RefreshToken`
abbrev pub permission_model : Model
permission_model = record {
  fields = auto_field ∷ ("code", record (plain (char 100)) { unique = true }) ∷ [];
  indexes = [];
  constraints = [];
}

abbrev pub role_model : Model
role_model = record {
  fields = auto_field ∷ ("name", record (plain (char 50)) { unique = true }) ∷ [];
  indexes = [];
  constraints = [];
}

abbrev pub user_role_model : Model
user_role_model = record {
  fields =
      auto_field
      ∷ ("user", plain (foreign_key auth_user_model cascade "role_links"))
      ∷ ("role", plain (foreign_key (label "authz" "Role") cascade "user_links"))
      ∷ [];
  indexes = [];
  constraints = unique_fields ("user" ∷ "role" ∷ []) "authz_user_role_unique" ∷ [];
}

abbrev pub role_permission_model : Model
role_permission_model = record {
  fields =
      auto_field
      ∷ ("role", plain (foreign_key (label "authz" "Role") cascade "permission_links"))
      ∷ ("permission", plain (foreign_key (label "authz" "Permission") cascade "role_links"))
      ∷ [];
  indexes = [];
  constraints = unique_fields ("role" ∷ "permission" ∷ []) "authz_role_permission_unique" ∷ [];
}

abbrev pub refresh_token_model : Model
refresh_token_model = record {
  fields =
      auto_field
      ∷ ("user", plain (foreign_key auth_user_model cascade "refresh_tokens"))
      ∷ ("token_hash", record (plain (char 64)) { unique = true })
      ∷ ("family_id", record (plain uuid) { db_index = true; default = some uuid4 })
      ∷ ("parent", nullable (foreign_key (label "authz" "RefreshToken") set_null "children"))
      ∷ ("device_hash", nullable (char 64))
      ∷ ("issued_ip", nullable ip_address)
      ∷ ("expires_at", plain (date_time false))
      ∷ ("revoked_at", nullable (date_time false))
      ∷ [];
  indexes =
      record { fields = "family_id" ∷ "revoked_at" ∷ []; name = "authz_refresh_family_rev_idx" }
      ∷ [];
  constraints = [];
}
