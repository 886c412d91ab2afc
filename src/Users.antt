-- ===== src/Users.antt =====
-- apps/accounts: the User model with its manager's normalisation, the value objects of
-- repositories/dtos.py, and repositories/users.py over the rows of the table.
pub mod Manager
use django_ninja_rbac_authen.Prelude.{
  ℕ, ◌+◌, Bool, true, false, not, ◌&&◌, ◌||◌, Option, none, some, List, [], ◌∷◌, ◌++◌, String,
  str_eq, ◌==◌, find, any, select, update_where, length, take, drop, if◌then◌else◌,
}
use django_ninja_rbac_authen.Errors.{integrity_error}
use django_ninja_rbac_authen.Effects.{ok, err, Action, pure, gets, ◌>>=◌}
use django_ninja_rbac_authen.Platform.{Platform}

pub record User : Type 0 where
  pub id : ℕ
  pub email : String
  pub password : String
  pub is_active : Bool
  pub is_staff : Bool
  pub is_superuser : Bool
  pub date_joined : ℕ

pub record UserTable : Type 0 where
  pub rows : List User
  pub next_id : ℕ

pub record UserDto : Type 0 where
  pub id : ℕ
  pub email : String
  pub is_active : Bool
  pub is_staff : Bool
  pub date_joined : ℕ

pub record CredentialsDto : Type 0 where
  pub id : ℕ
  pub email : String
  pub password_hash : String
  pub is_active : Bool

abbrev pub user_dto_from_model : User → UserDto
user_dto_from_model u = record {
  id = u.id;
  email = u.email;
  is_active = u.is_active;
  is_staff = u.is_staff;
  date_joined = u.date_joined;
}

abbrev pub credentials_dto_from_model : User → CredentialsDto
credentials_dto_from_model u = record {
  id = u.id;
  email = u.email;
  password_hash = u.password;
  is_active = u.is_active;
}

abbrev pub has_id : ℕ → User → Bool
has_id id u = u.id == id

abbrev pub has_email : String → User → Bool
has_email email u = str_eq u.email email

abbrev pub dto? : Option User → Option UserDto
dto? none = none
dto? (some u) = some (user_dto_from_model u)

abbrev pub credentials? : Option User → Option CredentialsDto
credentials? none = none
credentials? (some u) = some (credentials_dto_from_model u)

abbrev pub dtos : List User → List UserDto
dtos [] = []
dtos (u ∷ us) = user_dto_from_model u ∷ dtos us

-- The fields of `aupdate`: those that are absent stay as they are.
pub record UserChanges : Type 0 where
  pub email : Option String
  pub password : Option String
  pub is_active : Option Bool

abbrev or_old {ℓ} : {A : Type ℓ} → Option A → A → A
or_old none a = a
or_old (some b) a = b

abbrev pub changed : UserChanges → User → User
changed c u = record u {
  email = or_old c.email u.email;
  password = or_old c.password u.password;
  is_active = or_old c.is_active u.is_active;
}

-- `aget_by_id`
unfoldable pub aget_by_id : ℕ → Action UserTable (Option UserDto)
aget_by_id user_id = gets (λ s. dto? (find (has_id user_id) s.rows))

-- `order_by("id")`: keys grow with each insertion, and rows keep the order of insertion.
unfoldable pub alist : ℕ → ℕ → Action UserTable (List UserDto)
alist offset limit = gets (λ s. dtos (take limit (drop offset s.rows)))

unfoldable pub acount : Action UserTable ℕ
acount = gets (λ s. length s.rows)

module _ (platform : Platform) where
  open platform use {base_normalize_email, lower, db_lower}

  -- `UserManager.normalize_email`
  unfoldable pub normalize_email : String → String
  normalize_email email = lower (base_normalize_email email)

  -- The two unique constraints: on the address, and on the address in the database's lower case.
  abbrev pub is_taken_by : String → User → Bool
  is_taken_by email u = str_eq u.email email || str_eq (db_lower u.email) (db_lower email)

  abbrev pub new_user : ℕ → ℕ → String → String → User
  new_user id joined email password = record {
    id = id;
    email = email;
    password = password;
    is_active = true;
    is_staff = false;
    is_superuser = false;
    date_joined = joined;
  }

  -- `User.objects.create(email=…, password=…)` at an instant
  unfoldable pub insert_user : ℕ → String → String → Action UserTable User
  insert_user joined email password s =
      if any (is_taken_by email) s.rows then (err integrity_error, s) else (
        ok (new_user s.next_id joined email password),
        record {
          rows = s.rows ++ new_user s.next_id joined email password ∷ [];
          next_id = s.next_id + 1;
        },
      )

  unfoldable pub aget_credentials : String → Action UserTable (Option CredentialsDto)
  unfolding normalize_email
  aget_credentials email =
      gets (λ s. credentials? (find (has_email (normalize_email email)) s.rows))

  unfoldable pub acreate_user : ℕ → String → String → Action UserTable UserDto
  unfolding insert_user normalize_email
  acreate_user joined email password_hash = do
    user ← insert_user joined (normalize_email email) password_hash
    pure (user_dto_from_model user)

  abbrev pub normalized : UserChanges → UserChanges
  normalized c = elim c.email [ none ↦ c | some e ↦ record c { email = some (normalize_email e) } ]

  -- Whether a row other than the user's has the new address.
  abbrev pub clashes : ℕ → Option String → List User → Bool
  clashes user_id none rows = false
  clashes user_id (some email) rows =
      any (has_id user_id) rows && any (λ u. not (has_id user_id u) && is_taken_by email u) rows

  -- `filter(id=…).update(…)`
  unfoldable pub update_fields : ℕ → UserChanges → Action UserTable Bool
  update_fields user_id c s = if clashes user_id c.email s.rows then (err integrity_error, s) else (
    ok (any (has_id user_id) s.rows),
    record s { rows = update_where (has_id user_id) (changed c) s.rows },
  )

  abbrev after_update : ℕ → Bool → Action UserTable (Option UserDto)
  after_update user_id false = pure none
  after_update user_id true = aget_by_id user_id

  unfoldable pub aupdate : ℕ → UserChanges → Action UserTable (Option UserDto)
  unfolding update_fields normalize_email aget_by_id
  aupdate user_id c = do
    updated ← update_fields user_id (normalized c)
    after_update user_id updated

-- The user's own row in `filter(id=…).delete()`; the number of deleted rows is not zero exactly when
-- there was one.
unfoldable pub delete_rows : ℕ → Action UserTable Bool
delete_rows user_id s = (
  ok (any (has_id user_id) s.rows),
  record s { rows = select (λ u. not (has_id user_id u)) s.rows },
)
