-- ===== src/Registration.antt =====
-- Operations that write to several tables of the database: creating a user with its role
-- (`AuthzRepository.acreate_user_with_role`) and deleting a user with its rows elsewhere
-- (`UserRepository.adelete` with the foreign keys of the models).
pub mod Outcome
use django_ninja_rbac_authen.Prelude.{ℕ, Bool, true, false, String, if◌then◌else◌}
use django_ninja_rbac_authen.Effects.{
  Result, ok, err, Action, pure, run_in_transaction, ◌>>=◌, ◌>>◌,
}
use django_ninja_rbac_authen.Platform.{Platform}
use django_ninja_rbac_authen.RefreshTokens
use django_ninja_rbac_authen.Users.{
  User, UserTable, UserDto, user_dto_from_model, normalize_email, insert_user, delete_rows,
}
use django_ninja_rbac_authen.Rbac
use django_ninja_rbac_authen.Rbac.{RbacTables, insert_link}
use django_ninja_rbac_authen.World.{Db}

abbrev pub db_users : {A : Type 0} → Action UserTable A → Action Db A
db_users m s = let (r, t) = m s.users in (r, record s { users = t })

abbrev pub db_rbac : {A : Type 0} → Action RbacTables A → Action Db A
db_rbac m s = let (r, t) = m s.rbac in (r, record s { rbac = t })

module _ (platform : Platform) where
  -- `_create_user_with_role`
  create_user_with_role : ℕ → String → String → ℕ → Action Db UserDto
  unfolding insert_user normalize_email insert_link
  create_user_with_role joined email password_hash role_id = do
    user ← db_users (insert_user platform joined (normalize_email platform email) password_hash)
    db_rbac (insert_link user.id role_id)
    pure (user_dto_from_model user)

  unfoldable pub acreate_user_with_role : ℕ → String → String → ℕ → Action Db UserDto
  unfolding create_user_with_role
  acreate_user_with_role joined email password_hash role_id =
      run_in_transaction (create_user_with_role joined email password_hash role_id)

-- `adelete`: the user's row, and by the foreign keys its role links and refresh tokens.
unfoldable pub adelete : ℕ → Action Db Bool
unfolding delete_rows RefreshTokens.cascade_user Rbac.cascade_user
adelete user_id s =
    let (deleted, users) = delete_rows user_id s.users in
    (
      deleted,
      record s {
        users = users;
        rbac = Rbac.cascade_user user_id s.rbac;
        tokens = RefreshTokens.cascade_user user_id s.tokens;
      },
    )
