-- ===== src/Tests/Commands.antt =====
-- The commands and the migrations at a new database.
use django_ninja_rbac_authen.Prelude.{
  ℕ, suc, ◌*◌, ◌≡◌, ◌≤◌, refl, inr, true, false, some, [], ◌∷◌, arith, pos, find, ltb, not,
}
use django_ninja_rbac_authen.Effects.{ok}
use django_ninja_rbac_authen.Users.{User, has_email, normalize_email}
use django_ninja_rbac_authen.Rbac.{Role}
use django_ninja_rbac_authen.Rbac.Inheritance.{has_permission}
use django_ninja_rbac_authen.World.{Db}
use django_ninja_rbac_authen.Jwt.Sorting.{contains}
use django_ninja_rbac_authen.Api.Guards.{role_assignment}
use django_ninja_rbac_authen.Commands.Bootstrap.{Arguments, Report, bootstrap}
use django_ninja_rbac_authen.Commands.Bootstrap.Outcome.{IsAdministrator, bootstrap_succeeds}
use django_ninja_rbac_authen.Commands.WaitForDb.{Surroundings, wait_for_db}
use django_ninja_rbac_authen.Commands.WaitForDb.Termination.{EndsWith, wait_for_db_ends}
use django_ninja_rbac_authen.Migrations.{admin, default_role_permissions, migrate}
use django_ninja_rbac_authen.Migrations.Agreement.{
  new_tables, migrated, is_granted, migrate-default_role_permissions,
}
use django_ninja_rbac_authen.Migrations.Administrator.{with_links, administrator_may}
use django_ninja_rbac_authen.Tests.Installation.{demo_platform, demo_db, ada}
use django_ninja_rbac_authen.Tests.Tokens.{differs}

migrate-default_role_permissions_example :
    ((migrate new_tables).0 ≡ ok tt)
    × (is_granted "admin" "audit.read" migrated
        ≡ contains "audit.read" (default_role_permissions admin))
migrate-default_role_permissions_example = migrate-default_role_permissions admin "audit.read"

abbrev admin_row : Role
admin_row = record { id = 1; name = "admin" }

-- The database after the migrations, without users.
abbrev new_db : Db
new_db = record demo_db { users = record { rows = []; next_id = 1 }; rbac = with_links [] }

abbrev arguments : Arguments
arguments = record {
  email = "root@example.com";
  bootstrap_admin_password = some "secret";
  isatty = false;
  typed = "";
}

bootstrap_succeeds_example :
    (r : Report) × (s' : Db) × (bootstrap demo_platform 5 7 arguments new_db ≡ (ok r, s'))
    × IsAdministrator demo_platform 5 7 "root@example.com" admin_row s'
    × (bootstrap demo_platform 5 7 arguments s'
        ≡ (ok (record { created = false; role_created = false }), s'))
unfolding migrate normalize_email
bootstrap_succeeds_example =
    bootstrap_succeeds demo_platform 5 7 arguments admin_row new_db
      (refl, inr ("secret", refl, differs "root@example.com" "" refl, refl, refl, refl))

-- Ada as the administrator.
abbrev adas_db : Db
adas_db = record demo_db {
  users = record { rows = record ada { is_staff = true; is_superuser = true } ∷ []; next_id = 2 };
  rbac = with_links (record { user_id = 1; role_id = 1 } ∷ []);
}

administrator_may_example :
    (u : User) × (find
        (has_email (normalize_email demo_platform "ada@example.com"))
        adas_db.users.rows
      ≡ some u)
    × (has_permission u.id "role.assign" adas_db.rbac ≡ true)
unfolding migrate normalize_email
administrator_may_example =
    administrator_may demo_platform 5 7 "ada@example.com" admin_row
      (record { user_id = 1; role_id = 1 } ∷ []) adas_db (role_assignment 1 1)
      (_, refl, (refl, refl, refl), refl, refl) refl

-- The database is up from the third attempt on, and the clock goes on by a second and a half.
abbrev starting : Surroundings
starting = record { connects = λ n. not (ltb n 2); monotonic = λ n. n * 1500000 }

wait_for_db_ends_example :
    (n : ℕ) × (n ≤ suc 60)
    × EndsWith starting 0 60000000 n (wait_for_db starting (pos 60000000) (pos 1000000))
wait_for_db_ends_example =
    wait_for_db_ends starting 60000000 999999 (ground arith, λ n. omega arith)

waited : wait_for_db starting (pos 60000000) (pos 1000000) ≡ some (ok 2)
unfolding wait_for_db
waited = refl
