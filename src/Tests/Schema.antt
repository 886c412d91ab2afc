-- ===== src/Tests/Schema.antt =====
-- The theorems on the schema, its migrations, the audit trail and the clients of Redis at concrete inputs.
use django_ninja_rbac_authen.Prelude.{
  ℕ, ◌≡◌, ◌≢◌, ◌↔◌, refl, Bool, true, false, Option, none, some, List, [], ◌∷◌, str_eq, arith,
  length, take, drop, map, select, All, if◌then◌else◌,
}
use mathlib.Core.List.{Perm}
use django_ninja_rbac_authen.Effects.{ok}
use django_ninja_rbac_authen.Metadata.{end}
use django_ninja_rbac_authen.Migrations.{add_audit_read_permission, remove_audit_read_permission}
use django_ninja_rbac_authen.Migrations.Agreement.{new_tables, migrated}
use django_ninja_rbac_authen.Migrations.Reversal.{remove-add_audit_read}
use django_ninja_rbac_authen.AuditLogs.{
  AuditLog, AuditTable, AuditFilter, audit_log_dto, user_delete, alist,
}
use django_ninja_rbac_authen.AuditLogs.Listing.{Meets, NewestFirst, alist-page}
use django_ninja_rbac_authen.AuditService.{record_event}
use django_ninja_rbac_authen.Rbac.{RbacTables}
use django_ninja_rbac_authen.Redis.Clients.{Use, got, gone, run, get_redis_client, one_client_each}
use django_ninja_rbac_authen.Schema.{
  Label, same_label, Model, on_model, with_field, with_constraint, without_index, Dependency, on,
  on_first, ProjectState,
}
use django_ninja_rbac_authen.Schema.Accounts.{documented_base}
use django_ninja_rbac_authen.Schema.History.{
  MigrationId, accounts_0001, accounts_0002, audit_0001, authz_0001, authz_0002, authz_0003,
  authz_0004, authz_0005, authz_0006, authz_0007, is_plan,
}
use django_ninja_rbac_authen.Schema.Models.{refresh_token, label_of, declared}
use django_ninja_rbac_authen.Schema.Run.{run_plan}
use django_ninja_rbac_authen.Schema.Agreement.{Agrees, run_plan-Agrees}
use django_ninja_rbac_authen.Schema.Widths.{Recorded, of_admin, event_of, Fits, record_event-Fits}
use django_ninja_rbac_authen.Tests.Installation.{demo, demo_world, from_browser}

-- A migration state as a function from labels to models.
abbrev table_state : ProjectState
table_state = record {
  State = Label → Option Model;
  model = λ s. s;
  create_model = λ k m s j. if same_label k j then some m else s j;
  add_field = λ k n f s j. if same_label k j then on_model (with_field n f) (s j) else s j;
  add_constraint = λ k c s j. if same_label k j then on_model (with_constraint c) (s j) else s j;
  remove_index = λ k n s j. if same_label k j then on_model (without_index n) (s j) else s j;
  model-create_model = λ k j m s. refl;
  model-add_field = λ k j n f s. refl;
  model-add_constraint = λ k j c s. refl;
  model-remove_index = λ k j n s. refl;
}

-- The migrations of Django's own app auth have run.
abbrev has_auth : Dependency → Bool
has_auth (on app name) = str_eq app "auth"
has_auth (on_first app) = false

abbrev mixed_plan : List MigrationId
mixed_plan =
    accounts_0001 ∷ authz_0001 ∷ authz_0002 ∷ audit_0001 ∷ authz_0003 ∷ authz_0004 ∷ accounts_0002
    ∷ authz_0005 ∷ authz_0006 ∷ authz_0007 ∷ []

-- The roles cannot come before the users that they are given to.
early_authz : is_plan has_auth [] (authz_0001 ∷ accounts_0001 ∷ []) ≡ false
unfolding is_plan
early_authz = refl

no_models : Label → Option Model
no_models _ = none

run_plan-Agrees_example :
    let done = run_plan table_state mixed_plan (record { schema = no_models; rows = new_tables }) in
    (done.0 ≡ ok tt)
    × (done.1.rows ≡ migrated)
    × Agrees
        (table_state.model done.1.schema (label_of refresh_token))
        (declared documented_base refresh_token)
unfolding is_plan
run_plan-Agrees_example =
    run_plan-Agrees documented_base (λ name. refl) table_state has_auth mixed_plan refl refl
      no_models refresh_token

abbrev deletion : Recorded
deletion = of_admin user_delete 2 none

record_event-Fits_example :
    All Fits (record_event demo (event_of deletion) from_browser demo_world).1.db.audit.rows
record_event-Fits_example =
    record_event-Fits demo deletion from_browser demo_world (omega arith) refl
      (omega arith, (omega arith, tt)) tt

-- A database before migration 0006, with an administrator's role.
abbrev before_0006 : RbacTables
before_0006 = record {
  roles = record { id = 1; name = "admin" } ∷ [];
  permissions = record { id = 1; code = "user.read" } ∷ [];
  user_roles = [];
  role_permissions = record { role_id = 1; permission_id = 1 } ∷ [];
}

remove-add_audit_read_example :
    ((add_audit_read_permission before_0006).0 ≡ ok tt)
    × (remove_audit_read_permission (add_audit_read_permission before_0006).1
        ≡ (ok tt, before_0006))
remove-add_audit_read_example =
    remove-add_audit_read before_0006 refl
      (record { permissions = (omega arith, tt); grants = (omega arith, tt) })

-- Two loops; a third one ends and its number is used again.
abbrev before : List (Use (λ n. n))
before = got 3 ∷ got 2 ∷ gone 3 ∷ []

abbrev between : List (Use (λ n. n))
between = got 2 ∷ gone 2 ∷ got 3 ∷ []

one_client_each_example :
    let s = run (λ n. n) before (record { entries = []; made = 0 }) in
    let t = run (λ n. n) between (get_redis_client (λ n. n) 1 s).1 in
    ((get_redis_client (λ n. n) 1 t).0 ≡ (get_redis_client (λ n. n) 1 s).0)
    × ((get_redis_client (λ n. n) 2 t).0 ≢ (get_redis_client (λ n. n) 1 s).0)
one_client_each_example =
    one_client_each (λ n. n) (λ m n e. e) 1 2 before between (λ e. ground arith)
      (λ e. ground arith, tt)

abbrev log_at : ℕ → ℕ → AuditLog
log_at id t = record {
  id = id;
  created_at = t;
  action = "login.success";
  actor_id = some 1;
  actor_email = none;
  target_type = none;
  target_id = none;
  outcome = "success";
  ip = none;
  user_agent = none;
  metadata = end;
}

abbrev logs : AuditTable
logs = record { rows = log_at 1 50 ∷ log_at 2 70 ∷ log_at 3 70 ∷ log_at 4 10 ∷ []; next_id = 5 }

abbrev since_20 : AuditFilter
since_20 = record {
  actor_id = some 1;
  action = none;
  outcome = none;
  from_at = some 20;
  to_at = none;
}

-- The newest first, and of the same instant the one with the larger key.
newest : (alist 0 2 since_20 logs).0 ≡ ok (map audit_log_dto (log_at 3 70 ∷ log_at 2 70 ∷ []), 3)
unfolding alist
newest = refl

alist-page_example :
    (wanted : AuditLog → Bool) × (log : List AuditLog) × ((r : AuditLog)
      → (wanted r ≡ true) ↔ Meets since_20 r)
    × Perm log (select wanted logs.rows)
    × NewestFirst log
    × (alist 1 2 since_20 logs ≡ (ok (map audit_log_dto (take 2 (drop 1 log)), length log), logs))
alist-page_example = alist-page 1 2 since_20 logs
