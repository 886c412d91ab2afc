-- ===== src/Schema.antt =====
-- The database schema: what apps/accounts/models.py, apps/authz/models.py and apps/audit/models.py
-- declare, and the operations of the migrations in apps/accounts, apps/authz and apps/audit. Names
-- that are only shown (verbose names, help texts) and the names of columns are left out.
pub mod Accounts
pub mod Audit
pub mod Authz
pub mod History
pub mod Chains
pub mod Models
pub mod Run
pub mod Replay
pub mod Lookups
pub mod Agreement
pub mod AdminSite
pub mod Widths
use Prim.Native.Char.{Char, code}
use Prim.Native.String as Text
use django_ninja_rbac_authen.Prelude.{
  ℕ, Bool, true, false, not, ◌&&◌, ◌≡◌, Option, none, some, List, [], ◌∷◌, ◌++◌, String, str_eq,
  ◌==◌, select, if◌then◌else◌,
}
use django_ninja_rbac_authen.Effects.{Action}
use django_ninja_rbac_authen.Rbac.{RbacTables}

abbrev lower_char : Char → String → String → Char
lower_char c (Text.◌∷◌ upper us) (Text.◌∷◌ lower ls) =
    if code c == code upper then lower else lower_char c us ls
lower_char c _ _ = c

-- `str.lower` on names of classes, which are ASCII
abbrev lower : String → String
lower Text.[] = Text.[]
lower (Text.◌∷◌ c s) =
    Text.◌∷◌ (lower_char c "ABCDEFGHIJKLMNOPQRSTUVWXYZ" "abcdefghijklmnopqrstuvwxyz") (lower s)

-- A model is known by the label of its app and its name in lower case.
abbrev pub Label : Type 0
Label = String × String

abbrev pub label : String → String → Label
label app name = (app, lower name)

abbrev pub same_label : Label → Label → Bool
same_label (a, m) (b, n) = str_eq a b && str_eq m n

pub data OnDelete : Type 0 where
  cascade set_null : OnDelete

-- The classes of fields, with the arguments of each.
pub data Kind : Type 0 where
  big_auto big_integer boolean uuid ip_address json : Kind
  char email : (max_length : ℕ) → Kind
  date_time : (auto_now_add : Bool) → Kind
  foreign_key : (to : Label) → OnDelete → (related_name : String) → Kind
  many_to_many : (to : Label) → (related_name : String) → Kind

pub data Default : Type 0 where
  bool : Bool → Default
  text : String → Default
  empty_dict uuid4 : Default

pub record Field : Type 0 where
  pub kind : Kind
  pub null : Bool
  pub blank : Bool
  pub unique : Bool
  pub db_index : Bool
  pub default : Option Default

-- A field with no further arguments.
abbrev pub plain : Kind → Field
plain k = record {
  kind = k;
  null = false;
  blank = false;
  unique = false;
  db_index = false;
  default = none;
}

-- `null=True, blank=True`
abbrev pub nullable : Kind → Field
nullable k = record (plain k) { null = true; blank = true }

abbrev pub with_default : Default → Kind → Field
with_default v k = record (plain k) { default = some v }

abbrev pub Fields : Type 0
Fields = List (String × Field)

abbrev pub lookup : String → Fields → Option Field
lookup k [] = none
lookup k ((j, f) ∷ fs) = if str_eq j k then some f else lookup k fs

-- `DEFAULT_AUTO_FIELD` and `default_auto_field` of the apps: the key that every model has
abbrev pub auto_field : String × Field
auto_field = ("id", plain big_auto)

-- `AUTH_USER_MODEL`
abbrev pub auth_user_model : Label
auth_user_model = label "accounts" "User"

pub record Index : Type 0 where
  pub fields : List String
  pub name : String

pub data Constraint : Type 0 where
  unique_fields : List String → (name : String) → Constraint
  unique_lower : (field name : String) → Constraint

pub record Model : Type 0 where
  pub fields : Fields
  pub indexes : List Index
  pub constraints : List Constraint

-- `RunPython` carries what it runs forwards and backwards.
pub data Operation : Type 0 where
  create_model : (name : String) → Model → Operation
  add_field : (model_name name : String) → Field → Operation
  add_constraint : (model_name : String) → Constraint → Operation
  remove_index : (model_name name : String) → Operation
  run_python : Action RbacTables (Unit {0}) → Action RbacTables (Unit {0}) → Operation

pub data Dependency : Type 0 where
  on : (app name : String) → Dependency
  on_first : (app : String) → Dependency

-- The attributes of a `Migration` class.
pub record Migration : Type 0 where
  pub initial : Bool
  pub dependencies : List Dependency
  pub operations : List Operation

-- What each operation does to the state of its model.
abbrev pub with_field : String → Field → Model → Model
with_field n f m = record m { fields = m.fields ++ (n, f) ∷ [] }

abbrev pub with_constraint : Constraint → Model → Model
with_constraint c m = record m { constraints = m.constraints ++ c ∷ [] }

abbrev pub without_index : String → Model → Model
without_index n m = record m { indexes = select (λ i. not (str_eq i.name n)) m.indexes }

abbrev pub on_model : (Model → Model) → Option Model → Option Model
on_model f none = none
on_model f (some m) = some (f m)

-- Django's migration state, with the documented effect of its operations: each changes the model of
-- its label and no other.
pub record ProjectState : Type 1 where
  pub State : Type 0
  pub model : State → Label → Option Model
  pub create_model : Label → Model → State → State
  pub add_field : Label → String → Field → State → State
  pub add_constraint : Label → Constraint → State → State
  pub remove_index : Label → String → State → State
  pub model-create_model :
      (k j : Label) (m : Model) (s : State)
      → model (create_model k m s) j ≡ (if same_label k j then some m else model s j)
  pub model-add_field :
      (k j : Label) (n : String) (f : Field) (s : State)
      → model (add_field k n f s) j
        ≡ (if same_label k j then on_model (with_field n f) (model s j) else model s j)
  pub model-add_constraint :
      (k j : Label) (c : Constraint) (s : State)
      → model (add_constraint k c s) j
        ≡ (if same_label k j then on_model (with_constraint c) (model s j) else model s j)
  pub model-remove_index :
      (k j : Label) (n : String) (s : State)
      → model (remove_index k n s) j
        ≡ (if same_label k j then on_model (without_index n) (model s j) else model s j)
