-- ===== src/Commands/Bootstrap.antt =====
-- apps/common/management/commands/bootstrap_admin.py
pub mod Outcome
use django_ninja_rbac_authen.Prelude.{
  ℕ, Bool, true, false, not, ◌&&◌, Option, none, some, String, str_eq, truthy, find, any,
  update_where, if◌then◌else◌,
}
use django_ninja_rbac_authen.Errors.{command_error}
use django_ninja_rbac_authen.Effects.{
  ok, err, Action, pure, raise, gets, run_in_transaction, ◌>>=◌, ◌>>◌,
}
use django_ninja_rbac_authen.Platform.{Platform}
use django_ninja_rbac_authen.Users.{User, UserTable, has_email, has_id, normalize_email}
use django_ninja_rbac_authen.Users.Manager.{ExtraFields, create_superuser}
use django_ninja_rbac_authen.Rbac.{Role, is_link, aassign_role}
use django_ninja_rbac_authen.Registration.{db_users, db_rbac}
use django_ninja_rbac_authen.World.{Db}

-- `--email`, the environment variable, whether standard input is a terminal, and what is typed there.
pub record Arguments : Type 0 where
  pub email : String
  pub bootstrap_admin_password : Option String
  pub isatty : Bool
  pub typed : String

-- What the message says: created or updated, assigned or already assigned.
pub record Report : Type 0 where
  pub created : Bool
  pub role_created : Bool

abbrev pub typed_password : Bool → String → Option String
typed_password isatty typed = if isatty && truthy (some typed) then some typed else none

-- `_password`
abbrev pub password : Arguments → Option String
password a =
    if truthy a.bootstrap_admin_password
    then a.bootstrap_admin_password
    else typed_password a.isatty a.typed

abbrev pub flagged : User → User
flagged u = record u { is_active = true; is_staff = true; is_superuser = true }

-- `_ensure_django_admin_flags`
unfoldable pub ensure_django_admin_flags : User → Action UserTable (Unit {0})
ensure_django_admin_flags u s =
    if u.is_active && u.is_staff && u.is_superuser
    then (ok tt, s)
    else (ok tt, record s { rows = update_where (has_id u.id) flagged s.rows })

abbrev no_extra_fields : ExtraFields
no_extra_fields = record { is_active = none; is_staff = none; is_superuser = none }

module _ (platform : Platform) (joined call : ℕ) where
  unfoldable pub with_password : String → Option String → Action Db User
  unfolding create_superuser
  with_password email none =
      raise (command_error "Set BOOTSTRAP_ADMIN_PASSWORD when creating a new administrator.")
  with_password email (some p) =
      db_users (create_superuser platform joined call email p no_extra_fields)

  -- The account with its key, and whether it is new.
  unfoldable pub account : Arguments → String → Option User → Action Db (ℕ × Bool)
  unfolding ensure_django_admin_flags with_password
  account a email none = do u ← with_password email (password a); pure (u.id, true)
  account a email (some u) = do db_users (ensure_django_admin_flags u); pure (u.id, false)

  unfoldable pub assigned : ℕ → ℕ → Bool → Action Db Report
  unfolding aassign_role
  assigned user_id role_id created = do
    present ← gets (λ (s : Db). any (is_link user_id role_id) s.rbac.user_roles)
    db_rbac (aassign_role user_id role_id)
    pure (record { created = created; role_created = not present })

  unfoldable pub with_role : Arguments → String → Option Role → Action Db Report
  unfolding account assigned
  with_role a email none =
      raise (command_error "The authz admin role does not exist. Run migrate first.")
  with_role a email (some role) = do
    found ← gets (λ (s : Db). find (has_email email) s.users.rows)
    (user_id, created) ← account a email found
    assigned user_id role.id created

  abbrev pub admin_role : Db → Option Role
  admin_role s = find (λ r. str_eq r.name "admin") s.rbac.roles

  -- `handle`, inside `transaction.atomic()`
  unfoldable pub bootstrap : Arguments → Action Db Report
  unfolding normalize_email with_role
  bootstrap a =
      run_in_transaction
        (λ (s : Db). with_role a (normalize_email platform a.email) (admin_role s) s)
