-- ===== src/Schema/Accounts.antt =====
-- apps/accounts: its migrations 0001 and 0002, the fields of `User` in models.py.
use django_ninja_rbac_authen.Prelude.{true, false, [], ◌∷◌, ◌++◌}
use django_ninja_rbac_authen.Schema.{
  char, email, boolean, date_time, many_to_many, bool, plain, nullable, with_default, Fields,
  auto_field, label, unique_lower, Model, create_model, add_field, add_constraint, on, Migration,
}

-- The fields of `CreateModel` in 0001
abbrev created_user : Fields
created_user =
    auto_field
    ∷ ("password", plain (char 128))
    ∷ ("last_login", nullable (date_time false))
    ∷ ("is_superuser", with_default (bool false) boolean)
    ∷ ("email", record (plain (email 254)) { unique = true })
    ∷ ("is_active", with_default (bool true) boolean)
    ∷ ("is_staff", with_default (bool false) boolean)
    ∷ ("groups", record (plain (many_to_many (label "auth" "group") "user_set")) { blank = true })
    ∷ (
      "user_permissions",
      record (plain (many_to_many (label "auth" "permission") "user_set")) { blank = true },
    )
    ∷ []

abbrev pub accounts_0001_initial : Migration
accounts_0001_initial = record {
  initial = true;
  dependencies = on "auth" "0012_alter_user_first_name_max_length" ∷ [];
  operations =
      create_model "User" (record { fields = created_user; indexes = []; constraints = [] }) ∷ [];
}

abbrev pub accounts_0002_date_joined : Migration
accounts_0002_date_joined = record {
  initial = false;
  dependencies = on "accounts" "0001_initial" ∷ [];
  operations =
      add_field "user" "date_joined" (plain (date_time true))
      ∷ add_constraint "user" (unique_lower "email" "accounts_user_email_ci_unique")
      ∷ [];
}

-- The fields that `User` declares itself; `EmailField` has 254 characters unless told otherwise.
abbrev pub own_user_fields : Fields
own_user_fields =
    ("email", record (plain (email 254)) { unique = true })
    ∷ ("is_active", with_default (bool true) boolean)
    ∷ ("is_staff", with_default (bool false) boolean)
    ∷ ("date_joined", plain (date_time true))
    ∷ []

-- `User`, whose fields begin with those of `AbstractBaseUser` and `PermissionsMixin`
abbrev pub user_model : Fields → Model
user_model inherited = record {
  fields = auto_field ∷ (inherited ++ own_user_fields);
  indexes = [];
  constraints = unique_lower "email" "accounts_user_email_ci_unique" ∷ [];
}

-- The documented fields of `AbstractBaseUser` and `PermissionsMixin`
abbrev pub documented_base : Fields
documented_base =
    ("password", plain (char 128))
    ∷ ("last_login", nullable (date_time false))
    ∷ ("is_superuser", with_default (bool false) boolean)
    ∷ ("groups", record (plain (many_to_many (label "auth" "group") "user_set")) { blank = true })
    ∷ (
      "user_permissions",
      record (plain (many_to_many (label "auth" "permission") "user_set")) { blank = true },
    )
    ∷ []
