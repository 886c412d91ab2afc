-- ===== src/Migrations/Agreement.antt =====
-- A new database after all migrations, against the catalogue of apps/authz/permissions.py.
use django_ninja_rbac_authen.Prelude.{
  ◌≡◌, refl, Bool, true, false, ◌&&◌, List, [], ◌∷◌, String, str_eq, any, arith, inl, inr,
  Bool-cases, ◌==◌, eq_iff, subst, sym, ◌∙◌, any-none, All-of_forall,
}
use django_ninja_rbac_authen.Effects.{ok}
use django_ninja_rbac_authen.Jwt.Sorting.{contains}
use django_ninja_rbac_authen.Rbac.{RbacTables}
use django_ninja_rbac_authen.Migrations.{
  PermissionCode, user_create, user_read, user_update, user_delete, role_assign, role_read,
  permission_read, audit_read, permission_code, codes_of_all, permission_catalog, every_code,
  has_code, RoleName, admin, user, role_name, default_role_permissions, grants, migrate,
}

-- A database in which no migration has run but the first.
abbrev pub new_tables : RbacTables
new_tables = record { roles = []; permissions = []; user_roles = []; role_permissions = [] }

-- The role is granted the code.
abbrev pub is_granted : String → String → RbacTables → Bool
is_granted name code s = any (grants name code s) s.role_permissions

abbrev pub migrated : RbacTables
migrated = (migrate new_tables).1

contains-known :
    (code : String) (ps : List PermissionCode)
    → contains code (codes_of_all ps) ≡ true
    → (p : PermissionCode) × (permission_code p ≡ code)
contains-known code [] h = absurd (ground (arith, h))
contains-known code (p ∷ ps) h = elim (Bool-cases (str_eq (permission_code p) code)) [
  | inl same ↦ (p, (eq_iff (permission_code p) code).0 same)
  | inr other ↦ contains-known code ps (rw other at h)
]

-- What the administrator's role is granted, for a code of the catalogue, and for any other.
granted-known : (p : PermissionCode) → is_granted "admin" (permission_code p) migrated ≡ true
unfolding migrate
granted-known user_create = refl
granted-known user_read = refl
granted-known user_update = refl
granted-known user_delete = refl
granted-known role_assign = refl
granted-known role_read = refl
granted-known permission_read = refl
granted-known audit_read = refl

any_narrow :
    {A : Type 0} (p q : A → Bool) (xs : List A)
    → any p xs ≡ false
    → any (λ x. p x && q x) xs ≡ false
any_narrow p q [] h = refl
any_narrow p q (x ∷ xs) h = ground (arith, any_narrow p q xs)

-- No role is granted a code that has no permission.
granted-unknown :
    (name code : String) (s : RbacTables)
    → any (has_code code) s.permissions ≡ false
    → is_granted name code s ≡ false
granted-unknown name code s h = any-none (grants name code s) s.role_permissions (
    All-of_forall _ s.role_permissions λ g.
      ground (arith, any_narrow (has_code code) (λ p. p.id == g.permission_id) s.permissions h))

-- The permissions after the migrations are those of the catalogue.
has_code-migrated :
    (code : String) → any (has_code code) migrated.permissions ≡ contains code permission_catalog
unfolding migrate
has_code-migrated code = refl

-- In a new database the migrations succeed, and each built-in role is granted exactly the codes that the
-- catalogue gives it.
pub migrate-default_role_permissions :
    (role : RoleName) (code : String)
    → ((migrate new_tables).0 ≡ ok tt)
      × (is_granted (role_name role) code migrated ≡ contains code (default_role_permissions role))
unfolding migrate
migrate-default_role_permissions admin code = (
  refl,
  elim (Bool-cases (contains code permission_catalog)) [
    | inl known ↦
        let (p, e) = contains-known code every_code known in
        subst (λ c. is_granted "admin" c migrated ≡ true) e (granted-known p) ∙ sym known
    | inr unknown ↦
        granted-unknown "admin" code migrated (has_code-migrated code ∙ unknown) ∙ sym unknown
  ],
)
migrate-default_role_permissions user code = (refl, refl)
