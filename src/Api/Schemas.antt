-- ===== src/Api/Schemas.antt =====
-- apps/authz/api/schemas.py: what the API takes and returns. pydantic checks a field when a value is
-- built; the address of a value is what `EmailStr` makes of it.
use django_ninja_rbac_authen.Prelude.{
  size, ℕ, suc, Bool, ◌&&◌, Option, none, some, List, [], ◌∷◌, String, leb, ℤ, pos, if◌then◌else◌,
}
use django_ninja_rbac_authen.Errors.{request_invalid, schema_invalid}
use django_ninja_rbac_authen.Effects.{Result, ok, err}
use django_ninja_rbac_authen.Metadata.{Metadata}
use django_ninja_rbac_authen.Platform.{Platform}
use django_ninja_rbac_authen.Users.{UserDto}
use django_ninja_rbac_authen.Rbac.{RoleDto, PermissionDto}
use django_ninja_rbac_authen.AuditLogs.{AuditLogDto}
use django_ninja_rbac_authen.AuthService.{TokenPair}

infixl 5 ◌>>=◌
abbrev ◌>>=◌ : {A B : Type 0} → Result A → (A → Result B) → Result B
ok a >>= f = f a
err e >>= f = err e

-- `RegisterIn`, and `LoginIn` with the same fields
pub record RegisterIn : Type 0 where
  pub email : String
  pub password : String

pub record UserUpdateIn : Type 0 where
  pub email : Option String
  pub password : Option String
  pub is_active : Option Bool

pub record TokenPairOut : Type 0 where
  pub access_token : String
  pub refresh_token : String
  pub token_type : String

pub record MeOut : Type 0 where
  pub id : ℕ
  pub email : String
  pub roles : List String
  pub permissions : List String

pub record UserOut : Type 0 where
  pub id : ℕ
  pub email : String
  pub is_active : Bool
  pub is_staff : Bool
  pub date_joined : ℕ

pub record RoleOut : Type 0 where
  pub id : ℕ
  pub name : String

pub record PermissionOut : Type 0 where
  pub id : ℕ
  pub code : String

pub record AuditLogOut : Type 0 where
  pub id : ℕ
  pub created_at : ℕ
  pub action : String
  pub actor_id : Option ℕ
  pub actor_email : Option String
  pub target_type : Option String
  pub target_id : Option String
  pub outcome : String
  pub ip : Option String
  pub user_agent : Option String
  pub metadata : Metadata

-- `UsersPageOut`, `RolesPageOut`, `PermissionsPageOut` and `AuditLogsPageOut`
pub record PageOut (A : Type 0) : Type 0 where
  pub items : List A
  pub total : ℕ
  pub offset : ℕ
  pub limit : ℕ

-- `Field(min_length=8, max_length=128)`
abbrev pub is_password : String → Bool
is_password s = leb 8 (size s) && leb (size s) 128

module _ (platform : Platform) where
  open platform use {email_str}

  -- An address in a request.
  abbrev email_in : String → Result String
  email_in s = elim (email_str s) [ none ↦ err request_invalid | some e ↦ ok e ]

  -- An address in a response.
  abbrev pub email_out : String → Result String
  email_out s = elim (email_str s) [ none ↦ err schema_invalid | some e ↦ ok e ]

  abbrev password_in : String → Result String
  password_in s = if is_password s then ok s else err request_invalid

  abbrev optional : (String → Result String) → Option String → Result (Option String)
  optional check none = ok none
  optional check (some s) = check s >>= λ t. ok (some t)

  unfoldable pub register_in : String → String → Result RegisterIn
  register_in email password = do
    email' ← email_in email
    password' ← password_in password
    ok (record { email = email'; password = password' })

  -- `RefreshIn` and `LogoutIn`
  unfoldable pub refresh_in : String → Result String
  refresh_in token = if leb 1 (size token) then ok token else err request_invalid

  unfoldable pub user_update_in : Option String → Option String → Option Bool → Result UserUpdateIn
  user_update_in email password is_active = do
    email' ← optional email_in email
    password' ← optional password_in password
    ok (record { email = email'; password = password'; is_active = is_active })

  -- `AssignRoleIn`
  unfoldable pub assign_role_in : ℤ → Result ℕ
  assign_role_in (pos (suc n)) = ok (suc n)
  assign_role_in _ = err request_invalid

  -- `_user_out` of both routers
  unfoldable pub user_out : UserDto → Result UserOut
  user_out u = do
    email ← email_out u.email
    ok (record {
      id = u.id;
      email = email;
      is_active = u.is_active;
      is_staff = u.is_staff;
      date_joined = u.date_joined;
    })

  unfoldable pub me_out : ℕ → String → List String → List String → Result MeOut
  me_out id email roles permissions = do
    email' ← email_out email
    ok (record { id = id; email = email'; roles = roles; permissions = permissions })

  unfoldable pub audit_log_out : AuditLogDto → Result AuditLogOut
  audit_log_out l = do
    email ← optional email_out l.actor_email
    ok (record {
      id = l.id;
      created_at = l.created_at;
      action = l.action;
      actor_id = l.actor_id;
      actor_email = email;
      target_type = l.target_type;
      target_id = l.target_id;
      outcome = l.outcome;
      ip = l.ip;
      user_agent = l.user_agent;
      metadata = l.metadata;
    })

-- `_token_pair_response`
abbrev pub token_pair_response : TokenPair → TokenPairOut
token_pair_response p = record {
  access_token = p.access_token;
  refresh_token = p.refresh_token;
  token_type = "bearer";
}

abbrev pub role_out : RoleDto → Result RoleOut
role_out r = ok (record { id = r.id; name = r.name })

abbrev pub permission_out : PermissionDto → Result PermissionOut
permission_out p = ok (record { id = p.id; code = p.code })

-- `[f(x) for x in items]`, which stops at the first item that is refused.
unfoldable pub traverse : {A B : Type 0} → (A → Result B) → List A → Result (List B)
traverse f [] = ok []
traverse f (x ∷ xs) = f x >>= λ y. traverse f xs >>= λ ys. ok (y ∷ ys)
