-- ===== src/Rbac.antt =====
-- The role and permission rows of apps/authz/models.py, the value objects of repositories/dtos.py, and
-- repositories/rbac.py over those rows. The keys of the two link tables are not used by the code.
pub mod Inheritance
pub mod Assignment
pub mod Assigned
use django_ninja_rbac_authen.Prelude.{
  ℕ, Bool, true, false, not, ◌&&◌, ◌||◌, Option, none, some, List, [], ◌∷◌, ◌++◌, String, str_eq,
  ◌==◌, find, any, select, length, take, drop, if◌then◌else◌,
}
use django_ninja_rbac_authen.Errors.{integrity_error}
use django_ninja_rbac_authen.Effects.{Result, ok, err, Action, pure, gets}
use Prim.Native.String.{compare}
use Prim.Native.Nat.{Ordering}

pub record Role : Type 0 where
  pub id : ℕ
  pub name : String

pub record Permission : Type 0 where
  pub id : ℕ
  pub code : String

pub record UserRole : Type 0 where
  pub user_id : ℕ
  pub role_id : ℕ

pub record RolePermission : Type 0 where
  pub role_id : ℕ
  pub permission_id : ℕ

pub record RbacTables : Type 0 where
  pub roles : List Role
  pub permissions : List Permission
  pub user_roles : List UserRole
  pub role_permissions : List RolePermission

pub record RoleDto : Type 0 where
  pub id : ℕ
  pub name : String

pub record PermissionDto : Type 0 where
  pub id : ℕ
  pub code : String

abbrev pub role_dto : Role → RoleDto
role_dto r = record { id = r.id; name = r.name }

abbrev pub permission_dto : Permission → PermissionDto
permission_dto p = record { id = p.id; code = p.code }

abbrev role? : Option Role → Option RoleDto
role? none = none
role? (some r) = some (role_dto r)

abbrev role_dtos : List Role → List RoleDto
role_dtos [] = []
role_dtos (r ∷ rs) = role_dto r ∷ role_dtos rs

abbrev permission_dtos : List Permission → List PermissionDto
permission_dtos [] = []
permission_dtos (p ∷ ps) = permission_dto p ∷ permission_dtos ps

unfoldable pub aget_role_by_name : String → Action RbacTables (Option RoleDto)
aget_role_by_name name = gets (λ s. role? (find (λ r. str_eq r.name name) s.roles))

unfoldable pub aget_role_by_id : ℕ → Action RbacTables (Option RoleDto)
aget_role_by_id role_id = gets (λ s. role? (find (λ r. r.id == role_id) s.roles))

-- `order_by("id")`: rows keep the order of their keys.
unfoldable pub alist_roles : ℕ → ℕ → Action RbacTables (List RoleDto)
alist_roles offset limit = gets (λ s. role_dtos (take limit (drop offset s.roles)))

unfoldable pub acount_roles : Action RbacTables ℕ
acount_roles = gets (λ s. length s.roles)

abbrev pub is_before : String → String → Bool
is_before a b = elim (compare a b) [ Ordering.lt ↦ true | _ ↦ false ]

-- `order_by("code")`
unfoldable pub insert_by_code : Permission → List Permission → List Permission
insert_by_code p [] = p ∷ []
insert_by_code p (q ∷ qs) =
    let rest = insert_by_code p qs in if is_before q.code p.code then q ∷ rest else p ∷ q ∷ qs

unfoldable pub sort_by_code : List Permission → List Permission
unfolding insert_by_code
sort_by_code [] = []
sort_by_code (p ∷ ps) = insert_by_code p (sort_by_code ps)

unfoldable pub alist_permissions : ℕ → ℕ → Action RbacTables (List PermissionDto)
unfolding sort_by_code
alist_permissions offset limit =
    gets (λ s. permission_dtos (take limit (drop offset (sort_by_code s.permissions))))

unfoldable pub acount_permissions : Action RbacTables ℕ
acount_permissions = gets (λ s. length s.permissions)

abbrev pub is_link : ℕ → ℕ → UserRole → Bool
is_link user_id role_id l = l.user_id == user_id && l.role_id == role_id

abbrev pub is_grant : ℕ → ℕ → RolePermission → Bool
is_grant role_id permission_id g = g.role_id == role_id && g.permission_id == permission_id

-- `role_links__role__user_links__user_id=…`: a grant of the permission to a role that the user has.
abbrev pub is_inherited : ℕ → RbacTables → Permission → Bool
is_inherited user_id s p =
    any (λ g. g.permission_id == p.id && any (is_link user_id g.role_id) s.user_roles)
      s.role_permissions

abbrev pub codes_of : List Permission → List String
codes_of [] = []
codes_of (p ∷ ps) = p.code ∷ codes_of ps

abbrev pub names_of : List Role → List String
names_of [] = []
names_of (r ∷ rs) = r.name ∷ names_of rs

-- A Python set is a list here; only membership and the sorted order of it are used.
unfoldable pub aget_user_permission_codes : ℕ → Action RbacTables (List String)
aget_user_permission_codes user_id =
    gets (λ s. codes_of (select (is_inherited user_id s) s.permissions))

unfoldable pub aget_user_role_names : ℕ → Action RbacTables (List String)
aget_user_role_names user_id =
    gets (λ s. names_of (select (λ r. any (is_link user_id r.id) s.user_roles) s.roles))

-- `UserRole.objects.get_or_create`, for keys that the callers have looked up
unfoldable pub aassign_role : ℕ → ℕ → Action RbacTables UserRole
aassign_role user_id role_id s =
    let link : UserRole = record { user_id = user_id; role_id = role_id } in
    if any (is_link user_id role_id) s.user_roles
    then (ok link, s)
    else (ok link, record s { user_roles = s.user_roles ++ link ∷ [] })

unfoldable pub agrant_permission : ℕ → ℕ → Action RbacTables RolePermission
agrant_permission role_id permission_id s =
    let grant : RolePermission = record { role_id = role_id; permission_id = permission_id } in
    if any (is_grant role_id permission_id) s.role_permissions
    then (ok grant, s)
    else (ok grant, record s { role_permissions = s.role_permissions ++ grant ∷ [] })

-- The foreign key of `UserRole` when a user is deleted.
unfoldable pub cascade_user : ℕ → RbacTables → RbacTables
cascade_user user_id s = record s {
  user_roles = select (λ l. not (l.user_id == user_id)) s.user_roles;
}

abbrev pub has_role : ℕ → List Role → Bool
has_role role_id rows = any (λ r. r.id == role_id) rows

-- `UserRole.objects.create` for a user that is there, under the unique constraint of the pair and the
-- foreign key to the role. The database may look at the key only at the end of the transaction, which
-- ends with this statement.
unfoldable pub insert_link : ℕ → ℕ → Action RbacTables (Unit {0})
insert_link user_id role_id s =
    if any (is_link user_id role_id) s.user_roles || not (has_role role_id s.roles)
    then (err integrity_error, s)
    else (
      ok tt,
      record s {
        user_roles = s.user_roles ++ record { user_id = user_id; role_id = role_id } ∷ [];
      },
    )
