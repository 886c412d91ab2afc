-- ===== src/Schema/Run.antt =====
-- What a run of migrations does: to the schema, through Django's migration state, and to the rows.
use django_ninja_rbac_authen.Prelude.{List, [], ◌∷◌}
use django_ninja_rbac_authen.Effects.{Result, Action, pure, ◌>>◌}
use django_ninja_rbac_authen.Rbac.{RbacTables}
use django_ninja_rbac_authen.Schema.{
  Operation, create_model, add_field, add_constraint, remove_index, run_python, label, ProjectState,
}
use django_ninja_rbac_authen.Schema.History.{App, app_label, MigrationId, app_of, migration}

-- What an operation does to the rows.
abbrev pub rows_of : Operation → Action RbacTables (Unit {0})
rows_of (run_python forwards _) = forwards
rows_of _ = pure tt

module _ (e : ProjectState) where
  abbrev pub change_schema : App → Operation → e.State → e.State
  change_schema a (create_model name m) s = e.create_model (label (app_label a) name) m s
  change_schema a (add_field model name f) s = e.add_field (label (app_label a) model) name f s
  change_schema a (add_constraint model c) s = e.add_constraint (label (app_label a) model) c s
  change_schema a (remove_index model name) s = e.remove_index (label (app_label a) model) name s
  change_schema a (run_python _ _) s = s

  pub record Project : Type 0 where
    pub schema : e.State
    pub rows : RbacTables

  abbrev with_rows : Project → Result (Unit {0}) × RbacTables → Result (Unit {0}) × Project
  with_rows p (r, rows) = (r, record p { rows = rows })

  abbrev run_operation : App → Operation → Action Project (Unit {0})
  run_operation a o p =
      with_rows (record p { schema = change_schema a o p.schema }) (rows_of o p.rows)

  unfoldable pub run_operations : App → List Operation → Action Project (Unit {0})
  run_operations a [] = pure tt
  run_operations a (o ∷ os) = do run_operation a o; run_operations a os

  -- The migrations of a run, one behind the other; the first error ends it.
  unfoldable pub run_plan : List MigrationId → Action Project (Unit {0})
  unfolding run_operations
  run_plan [] = pure tt
  run_plan (i ∷ plan) = do run_operations (app_of i) (migration i).operations; run_plan plan
