-- ===== src/Schema/Agreement.antt =====
-- The schema and the rows that the migrations leave, whatever order they run in.
use django_ninja_rbac_authen.Prelude.{
  ◌≡◌, refl, sym, ap, ◌∙◌, Bool, true, Option, some, List, [], String, str_eq, if◌then◌else◌,
}
use django_ninja_rbac_authen.Effects.{Result, ok, err, pure, continue}
use django_ninja_rbac_authen.Rbac.{RbacTables}
use django_ninja_rbac_authen.Migrations.{
  migrate, migrate_lem, RoleName, seed_roles_and_permissions, remove_default_user_admin_permission,
  add_audit_read_permission,
}
use django_ninja_rbac_authen.Migrations.Agreement.{
  new_tables, migrated, migrate-default_role_permissions,
}
use django_ninja_rbac_authen.Schema.{Fields, lookup, auto_field, Model, Dependency, ProjectState}
use django_ninja_rbac_authen.Schema.Lookups.{Covers, lookup_ext, lookup-append_cong}
use django_ninja_rbac_authen.Schema.Accounts.{own_user_fields, documented_base, user_model}
use django_ninja_rbac_authen.Schema.History.{authz, MigrationId, is_plan, is_complete}
use django_ninja_rbac_authen.Schema.Chains.{chain, of_app-chain}
use django_ninja_rbac_authen.Schema.Models.{
  ModelName, user, permission, role, user_role, role_permission, refresh_token, audit_log,
  app_of_model, label_of, declared, SameModel,
}
use django_ninja_rbac_authen.Schema.Run.{run_plan}
use django_ninja_rbac_authen.Schema.Replay.{
  replay, replay-of_app, replay_rows, replay_rows-of_app, change_plan, model-change_plan,
  run_plan-ok,
}

-- Django's migration state has a model, and it is the same as the declared one.
abbrev pub Agrees : Option Model → Model → Type 0
Agrees o m = (m' : Model) × (o ≡ some m') × SameModel m' m

same :
    (m n : Model)
    → Covers m.fields n.fields
    → Covers n.fields m.fields
    → m.indexes ≡ n.indexes
    → m.constraints ≡ n.constraints
    → SameModel m n
same m n c d is cs = record {
  fields = lookup_ext m.fields n.fields c d;
  indexes = is;
  constraints = cs;
}

SameModel-trans : {m n o : Model} → SameModel m n → SameModel n o → SameModel m o
SameModel-trans h k = record {
  fields = λ name. h.fields name ∙ k.fields name;
  indexes = h.indexes ∙ k.indexes;
  constraints = h.constraints ∙ k.constraints;
}

-- With the documented base classes, each chain of migrations leaves what is declared.
replay-declared :
    (k : ModelName) (x : Option Model)
    → Agrees (replay (chain (app_of_model k)) (label_of k) x) (declared documented_base k)
replay-declared user x = (_, refl, same _ _ refl refl refl refl)
replay-declared permission x = (_, refl, same _ _ refl refl refl refl)
replay-declared role x = (_, refl, same _ _ refl refl refl refl)
replay-declared user_role x = (_, refl, same _ _ refl refl refl refl)
replay-declared role_permission x = (_, refl, same _ _ refl refl refl refl)
replay-declared refresh_token x = (_, refl, same _ _ refl refl refl refl)
replay-declared audit_log x = (_, refl, same _ _ refl refl refl refl)

module _ {S : Type 0} where
  continue-pure :
      (f g : S → Result (Unit {0}) × S)
      → ((s : S) → f s ≡ g s)
      → (r : Result (Unit {0}) × S)
      → continue (λ (_ : Unit {0}). f) (continue (λ (_ : Unit {0}). pure tt) r)
        ≡ continue (λ (_ : Unit {0}). g) r
  continue-pure f g h (ok tt, s) = h s
  continue-pure f g h (err x, s) = refl

  continue-last : (r : Result (Unit {0}) × S) → continue (λ (_ : Unit {0}). pure tt) r ≡ r
  continue-last (ok tt, s) = refl
  continue-last (err x, s) = refl

-- The data migrations of the chain are those that `migrate` runs.
replay_rows-migrate : (s : RbacTables) → replay_rows (chain authz) s ≡ migrate s
replay_rows-migrate s =
    continue-pure _ _
      (λ s.
        continue-pure _ _
          (λ s.
            continue-pure _ _ (λ s. refl) (add_audit_read_permission s)
            ∙ continue-last (add_audit_read_permission s))
          (remove_default_user_admin_permission s))
      (seed_roles_and_permissions s)
    ∙ sym (migrate_lem s)

-- The base classes have their documented fields.
abbrev pub IsDocumented : Fields → Type 0
IsDocumented inherited = (name : String) → lookup name inherited ≡ lookup name documented_base

module _ (inherited : Fields) (base : IsDocumented inherited) where
  pub SameModel-user : SameModel (user_model documented_base) (user_model inherited)
  SameModel-user = record {
    fields = λ name.
        ap (λ o. if str_eq "id" name then some auto_field.1 else o)
          (lookup-append_cong documented_base inherited own_user_fields name (sym (base name)));
    indexes = refl;
    constraints = refl;
  }

  SameModel-declared :
      (k : ModelName) → SameModel (declared documented_base k) (declared inherited k)
  SameModel-declared user = SameModel-user
  SameModel-declared permission = same _ _ refl refl refl refl
  SameModel-declared role = same _ _ refl refl refl refl
  SameModel-declared user_role = same _ _ refl refl refl refl
  SameModel-declared role_permission = same _ _ refl refl refl refl
  SameModel-declared refresh_token = same _ _ refl refl refl refl
  SameModel-declared audit_log = same _ _ refl refl refl refl

  module _ (e : ProjectState) (installed : Dependency → Bool) (plan : List MigrationId)
      (allowed : is_plan installed [] plan ≡ true) (complete : is_complete plan ≡ true) where
    -- A model behind the run.
    schema-Agrees :
        (s : e.State) (k : ModelName)
        → Agrees (e.model (change_plan e plan s) (label_of k)) (declared inherited k)
    schema-Agrees s k =
        let x = e.model s (label_of k) in
        let (m, found, like) = replay-declared k x in
        (
          m,
          model-change_plan e plan s (label_of k)
              ∙ replay-of_app (app_of_model k) (label_of k).1 plan x
              ∙ ap (λ p. replay p (label_of k) x)
                  (of_app-chain installed plan (app_of_model k) allowed complete)
              ∙ found,
          SameModel-trans like (SameModel-declared k),
        )

    rows-migrated : replay_rows plan new_tables ≡ (ok tt, migrated)
    rows-migrated =
        replay_rows-of_app plan new_tables
        ∙ ap (λ p. replay_rows p new_tables) (of_app-chain installed plan authz allowed complete)
        ∙ replay_rows-migrate new_tables
        ∙ (λ t. ((migrate-default_role_permissions RoleName.user "").0 t, migrated))

    -- In a new database, every order of the migrations that respects their dependencies succeeds. Each
    -- model of the three apps then is as declared: it has the same field under every name, and the same
    -- indexes and constraints. The roles, permissions and grants are those of the data migrations 0002,
    -- 0005 and 0006 in this order. The base classes of `User` are taken to have their documented fields.
    pub run_plan-Agrees :
        (s : e.State) (k : ModelName)
        → let done = run_plan e plan (record { schema = s; rows = new_tables }) in
          (done.0 ≡ ok tt)
          × (done.1.rows ≡ migrated)
          × Agrees (e.model done.1.schema (label_of k)) (declared inherited k)
    run_plan-Agrees s k =
        rw (run_plan-ok e plan (record { schema = s; rows = new_tables }) migrated rows-migrated)
          (refl, refl, schema-Agrees s k)
