-- ===== src/Schema/Replay.antt =====
-- What a run of migrations makes of one model, and of the rows: only the migrations of the app count.
use django_ninja_rbac_authen.Prelude.{
  ◌≡◌, refl, ap, ◌∙◌, inl, inr, false, Option, some, List, [], ◌∷◌, String, str_eq, if◌then◌else◌,
  Bool-cases,
}
use django_ninja_rbac_authen.Effects.{ok, Action, pure, continue, ◌>>◌}
use django_ninja_rbac_authen.Effects.Continue.{continue-ok}
use django_ninja_rbac_authen.Rbac.{RbacTables}
use django_ninja_rbac_authen.Schema.{
  Label, label, same_label, Model, on_model, with_field, with_constraint, without_index, Operation,
  create_model, add_field, add_constraint, remove_index, run_python, ProjectState,
}
use django_ninja_rbac_authen.Schema.History.{
  App, accounts, audit, authz, app_label, same_app, MigrationId, accounts_0001, accounts_0002,
  audit_0001, app_of, migration,
}
use django_ninja_rbac_authen.Schema.Chains.{of_app}
use django_ninja_rbac_authen.Schema.Run.{change_schema, Project, rows_of, run_operations, run_plan}

abbrev effect : App → Operation → Label → Option Model → Option Model
effect a (create_model name m) j o = if same_label (label (app_label a) name) j then some m else o
effect a (add_field model n f) j o =
    if same_label (label (app_label a) model) j then on_model (with_field n f) o else o
effect a (add_constraint model c) j o =
    if same_label (label (app_label a) model) j then on_model (with_constraint c) o else o
effect a (remove_index model n) j o =
    if same_label (label (app_label a) model) j then on_model (without_index n) o else o
effect a (run_python _ _) j o = o

abbrev effects : App → List Operation → Label → Option Model → Option Model
effects a [] j x = x
effects a (o ∷ os) j x = effects a os j (effect a o j x)

-- The model of a label behind the migrations, from what it was before.
abbrev pub replay : List MigrationId → Label → Option Model → Option Model
replay [] j x = x
replay (i ∷ plan) j x = replay plan j (effects (app_of i) (migration i).operations j x)

labels_differ : (a b : App) → same_app a b ≡ false → str_eq (app_label a) (app_label b) ≡ false
labels_differ accounts accounts h = absurd (cc)
labels_differ accounts audit h = refl
labels_differ accounts authz h = refl
labels_differ audit accounts h = refl
labels_differ audit audit h = absurd (cc)
labels_differ audit authz h = refl
labels_differ authz accounts h = refl
labels_differ authz audit h = refl
labels_differ authz authz h = absurd (cc)

module _ (a b : App) (n : String) (h : same_app a b ≡ false) where
  effect_elsewhere : (o : Operation) (x : Option Model) → effect a o (app_label b, n) x ≡ x
  effect_elsewhere (create_model _ _) x = rw (labels_differ a b h) refl
  effect_elsewhere (add_field _ _ _) x = rw (labels_differ a b h) refl
  effect_elsewhere (add_constraint _ _) x = rw (labels_differ a b h) refl
  effect_elsewhere (remove_index _ _) x = rw (labels_differ a b h) refl
  effect_elsewhere (run_python _ _) x = refl

  effects_elsewhere : (os : List Operation) (x : Option Model) → effects a os (app_label b, n) x ≡ x
  effects_elsewhere [] x = refl
  effects_elsewhere (o ∷ os) x =
      ap (effects a os (app_label b, n)) (effect_elsewhere o x) ∙ effects_elsewhere os x

-- Only the migrations of the model's own app count.
pub replay-of_app :
    (b : App) (n : String) (plan : List MigrationId) (x : Option Model)
    → replay plan (app_label b, n) x ≡ replay (of_app b plan) (app_label b, n) x
replay-of_app b n [] x = refl
replay-of_app b n (i ∷ plan) x = elim (Bool-cases (same_app (app_of i) b)) [
  | inl e ↦
      rw e (replay-of_app b n plan (effects (app_of i) (migration i).operations (app_label b, n) x))
  | inr e ↦ rw e (
      ap (replay plan (app_label b, n))
        (effects_elsewhere (app_of i) b n e (migration i).operations x)
      ∙ replay-of_app b n plan x)
]

-- The rows behind the migrations.
abbrev all_rows : List Operation → Action RbacTables (Unit {0})
all_rows [] = pure tt
all_rows (o ∷ os) = do rows_of o; all_rows os

abbrev pub replay_rows : List MigrationId → Action RbacTables (Unit {0})
replay_rows [] = pure tt
replay_rows (i ∷ plan) = do all_rows (migration i).operations; replay_rows plan

-- Only the app authz has data migrations.
pub replay_rows-of_app :
    (plan : List MigrationId) (rows : RbacTables)
    → replay_rows plan rows ≡ replay_rows (of_app authz plan) rows
replay_rows-of_app [] rows = refl
replay_rows-of_app (accounts_0001 ∷ plan) rows = replay_rows-of_app plan rows
replay_rows-of_app (accounts_0002 ∷ plan) rows = replay_rows-of_app plan rows
replay_rows-of_app (audit_0001 ∷ plan) rows = replay_rows-of_app plan rows
replay_rows-of_app (i ∷ plan) rows =
    λ t. continue (λ _ s. replay_rows-of_app plan s t) (all_rows (migration i).operations rows)

module _ (e : ProjectState) where
  change_all : App → List Operation → e.State → e.State
  change_all a [] s = s
  change_all a (o ∷ os) s = change_all a os (change_schema e a o s)

  pub change_plan : List MigrationId → e.State → e.State
  unfolding change_all
  change_plan [] s = s
  change_plan (i ∷ plan) s = change_plan plan (change_all (app_of i) (migration i).operations s)

  model-change_schema :
      (a : App) (o : Operation) (s : e.State) (j : Label)
      → e.model (change_schema e a o s) j ≡ effect a o j (e.model s j)
  model-change_schema a (create_model n m) s j = e.model-create_model (label (app_label a) n) j m s
  model-change_schema a (add_field m n f) s j = e.model-add_field (label (app_label a) m) j n f s
  model-change_schema a (add_constraint m c) s j =
      e.model-add_constraint (label (app_label a) m) j c s
  model-change_schema a (remove_index m n) s j = e.model-remove_index (label (app_label a) m) j n s
  model-change_schema a (run_python _ _) s j = refl

  model-change_all :
      (a : App) (os : List Operation) (s : e.State) (j : Label)
      → e.model (change_all a os s) j ≡ effects a os j (e.model s j)
  unfolding change_all
  model-change_all a [] s j = refl
  model-change_all a (o ∷ os) s j =
      model-change_all a os (change_schema e a o s) j
      ∙ ap (effects a os j) (model-change_schema a o s j)

  pub model-change_plan :
      (plan : List MigrationId) (s : e.State) (j : Label)
      → e.model (change_plan plan s) j ≡ replay plan j (e.model s j)
  unfolding change_plan
  model-change_plan [] s j = refl
  model-change_plan (i ∷ plan) s j =
      model-change_plan plan (change_all (app_of i) (migration i).operations s) j
      ∙ ap (replay plan j) (model-change_all (app_of i) (migration i).operations s j)

  -- A run whose data migrations succeed.
  run_operations-ok :
      (a : App) (os : List Operation) (p : Project e) (rows : RbacTables)
      → all_rows os p.rows ≡ (ok tt, rows)
      → run_operations e a os p ≡ (ok tt, record { schema = change_all a os p.schema; rows = rows })
  unfolding run_operations change_all
  run_operations-ok a [] p rows h = λ t. (ok tt, record { schema = p.schema; rows = (h t).1 })
  run_operations-ok a (o ∷ os) p rows h =
      let (_, s, first, rest) = continue-ok (λ _. all_rows os) (rows_of o p.rows) tt rows h in
      rw first (
        run_operations-ok a os (record { schema = change_schema e a o p.schema; rows = s }) rows
          rest)

  pub run_plan-ok :
      (plan : List MigrationId) (p : Project e) (rows : RbacTables)
      → replay_rows plan p.rows ≡ (ok tt, rows)
      → run_plan e plan p ≡ (ok tt, record { schema = change_plan plan p.schema; rows = rows })
  unfolding run_plan change_plan
  run_plan-ok [] p rows h = λ t. (ok tt, record { schema = p.schema; rows = (h t).1 })
  run_plan-ok (i ∷ plan) p rows h =
      let (_, s, first, rest) =
        continue-ok (λ _. replay_rows plan) (all_rows (migration i).operations p.rows) tt rows h in
      let before = run_operations-ok (app_of i) (migration i).operations p s first in
      ap (continue (λ _. run_plan e plan)) before
      ∙ run_plan-ok plan
          (record { schema = change_all (app_of i) (migration i).operations p.schema; rows = s })
          rows rest
