-- ===== src/Users/Manager.antt =====
-- apps/accounts/models.py: `UserManager.create_user` and `create_superuser`, as the management command
-- calls them, with a password.
use django_ninja_rbac_authen.Prelude.{
  ℕ, ◌+◌, Bool, true, false, Option, none, some, [], ◌∷◌, ◌++◌, String, str_eq, any, if◌then◌else◌,
}
use django_ninja_rbac_authen.Errors.{integrity_error, value_error}
use django_ninja_rbac_authen.Effects.{ok, err, Action, raise}
use django_ninja_rbac_authen.Platform.{Platform}
use django_ninja_rbac_authen.Users.{User, UserTable, is_taken_by, normalize_email}

-- `**extra_fields`
pub record ExtraFields : Type 0 where
  pub is_active : Option Bool
  pub is_staff : Option Bool
  pub is_superuser : Option Bool

abbrev pub or_default : Option Bool → Bool → Bool
or_default none b = b
or_default (some b) _ = b

-- `super().save()` of a new row, under the unique constraints.
abbrev pub save_user : Platform → User → Action UserTable User
save_user platform u s =
    if any (is_taken_by platform u.email) s.rows
    then (err integrity_error, s)
    else (ok u, record s { rows = s.rows ++ u ∷ []; next_id = s.next_id + 1 })

module _ (platform : Platform) (joined call : ℕ) where
  abbrev pub built_user : ℕ → String → String → ExtraFields → User
  built_user id email password extra = record {
    id = id;
    email = normalize_email platform email;
    password = platform.make_password call password;
    is_active = or_default extra.is_active true;
    is_staff = or_default extra.is_staff false;
    is_superuser = or_default extra.is_superuser false;
    date_joined = joined;
  }

  unfoldable pub create_user : String → String → ExtraFields → Action UserTable User
  unfolding normalize_email
  create_user email password extra s =
      if str_eq email ""
      then (err value_error, s)
      else save_user platform (built_user s.next_id email password extra) s

  unfoldable pub create_superuser : String → String → ExtraFields → Action UserTable User
  unfolding create_user
  create_superuser email password extra =
      let staff = or_default extra.is_staff true in
      let superuser = or_default extra.is_superuser true in
      if staff
      then (if superuser
          then create_user email password
              (record extra { is_staff = some staff; is_superuser = some superuser })
          else raise value_error)
      else raise value_error
