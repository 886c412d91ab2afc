-- ===== src/Schema/History.antt =====
-- The migrations of the repository with their dependencies, and the runs that Django's planner may
-- choose: any order in which each migration comes once, behind what it depends on.
use django_ninja_rbac_authen.Prelude.{
  ℕ, Bool, true, false, not, ◌&&◌, ◌||◌, Option, none, some, List, [], ◌∷◌, String, str_eq, ◌==◌,
  find,
}
use django_ninja_rbac_authen.Schema.{Dependency, on, on_first, Migration}
use django_ninja_rbac_authen.Schema.Accounts.{accounts_0001_initial, accounts_0002_date_joined}
use django_ninja_rbac_authen.Schema.Audit.{audit_0001_initial}
use django_ninja_rbac_authen.Schema.Authz.{
  authz_0001_initial, authz_0002_seed, authz_0003_remove_indexes, authz_0004_refresh_token,
  authz_0005_remove_permission, authz_0006_add_audit_read, authz_0007_binding,
}

pub data App : Type 0 where
  accounts audit authz : App

abbrev pub app_label : App → String
app_label accounts = "accounts"
app_label audit = "audit"
app_label authz = "authz"

abbrev pub same_app : App → App → Bool
same_app accounts accounts = true
same_app audit audit = true
same_app authz authz = true
same_app _ _ = false

-- The files of the three folders `migrations`
pub data MigrationId : Type 0 where
  accounts_0001 accounts_0002 : MigrationId
  audit_0001 : MigrationId
  authz_0001 authz_0002 authz_0003 authz_0004 authz_0005 authz_0006 authz_0007 : MigrationId

abbrev pub every_migration : List MigrationId
every_migration =
    accounts_0001 ∷ accounts_0002 ∷ audit_0001 ∷ authz_0001 ∷ authz_0002 ∷ authz_0003 ∷ authz_0004
    ∷ authz_0005 ∷ authz_0006 ∷ authz_0007 ∷ []

abbrev pub app_of : MigrationId → App
app_of accounts_0001 = accounts
app_of accounts_0002 = accounts
app_of audit_0001 = audit
app_of _ = authz

-- The number in front of the file's name, which tells the migrations of an app apart
abbrev pub number : MigrationId → ℕ
number accounts_0001 = 1
number accounts_0002 = 2
number audit_0001 = 1
number authz_0001 = 1
number authz_0002 = 2
number authz_0003 = 3
number authz_0004 = 4
number authz_0005 = 5
number authz_0006 = 6
number authz_0007 = 7

abbrev pub file_name : MigrationId → String
file_name accounts_0001 = "0001_initial"
file_name accounts_0002 = "0002_user_date_joined_and_email_ci_unique"
file_name audit_0001 = "0001_initial"
file_name authz_0001 = "0001_initial"
file_name authz_0002 = "0002_seed_roles_and_permissions"
file_name authz_0003 = "0003_remove_redundant_composite_indexes"
file_name authz_0004 = "0004_refresh_token"
file_name authz_0005 = "0005_remove_default_user_admin_permission"
file_name authz_0006 = "0006_add_audit_read_permission"
file_name authz_0007 = "0007_refreshtoken_device_hash_refreshtoken_issued_ip"

abbrev pub migration : MigrationId → Migration
migration accounts_0001 = accounts_0001_initial
migration accounts_0002 = accounts_0002_date_joined
migration audit_0001 = audit_0001_initial
migration authz_0001 = authz_0001_initial
migration authz_0002 = authz_0002_seed
migration authz_0003 = authz_0003_remove_indexes
migration authz_0004 = authz_0004_refresh_token
migration authz_0005 = authz_0005_remove_permission
migration authz_0006 = authz_0006_add_audit_read
migration authz_0007 = authz_0007_binding

abbrev pub same : MigrationId → MigrationId → Bool
same i j = same_app (app_of i) (app_of j) && number i == number j

abbrev pub mentions : MigrationId → List MigrationId → Bool
mentions i [] = false
mentions i (j ∷ js) = same j i || mentions i js

-- The migration of the repository that a dependency names; `__first__` is the initial one of its app.
unfoldable pub resolve : Dependency → Option MigrationId
resolve (on app name) =
    find (λ i. str_eq (app_label (app_of i)) app && str_eq (file_name i) name) every_migration
resolve (on_first app) =
    find (λ i. str_eq (app_label (app_of i)) app && (migration i).initial) every_migration

-- A dependency on another package is met if that package's migration has run.
abbrev pub is_met : (Dependency → Bool) → List MigrationId → Option MigrationId → Dependency → Bool
is_met installed applied none d = installed d
is_met installed applied (some i) d = mentions i applied

abbrev pub all_met : (Dependency → Bool) → List MigrationId → List Dependency → Bool
all_met installed applied [] = true
all_met installed applied (d ∷ ds) =
    is_met installed applied (resolve d) d && all_met installed applied ds

-- A migration may run next if it has not run and its dependencies have.
unfoldable pub is_ready : (Dependency → Bool) → List MigrationId → MigrationId → Bool
unfolding resolve
is_ready installed applied i =
    not (mentions i applied) && all_met installed applied (migration i).dependencies

-- A run behind the migrations that are applied already.
unfoldable pub is_plan : (Dependency → Bool) → List MigrationId → List MigrationId → Bool
unfolding is_ready
is_plan installed applied [] = true
is_plan installed applied (i ∷ plan) =
    is_ready installed applied i && is_plan installed (i ∷ applied) plan

abbrev pub all_mentioned : List MigrationId → List MigrationId → Bool
all_mentioned [] plan = true
all_mentioned (i ∷ is) plan = mentions i plan && all_mentioned is plan

-- A run of every migration.
abbrev pub is_complete : List MigrationId → Bool
is_complete plan = all_mentioned every_migration plan
