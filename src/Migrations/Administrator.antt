-- ===== src/Migrations/Administrator.antt =====
-- An administrator of an installation whose grants are those of the migrations, in front of the routes.
use django_ninja_rbac_authen.Prelude.{
  ℕ, ◌≡◌, refl, ap, sym, ◌∙◌, true, some, List, [], ◌∷◌, String, str_eq, find, any, arith, subst,
}
use django_ninja_rbac_authen.Platform.{Platform}
use django_ninja_rbac_authen.Users.{User, has_email, normalize_email}
use django_ninja_rbac_authen.Rbac.{
  Role, Permission, UserRole, RolePermission, RbacTables, is_link, is_grant,
}
use django_ninja_rbac_authen.Rbac.Inheritance.{has_permission}
use django_ninja_rbac_authen.Rbac.Assignment.{granted_and_linked}
use django_ninja_rbac_authen.World.{Db}
use django_ninja_rbac_authen.Commands.Bootstrap.Outcome.{IsAdministrator}
use django_ninja_rbac_authen.Api.Guards.{
  AdminCall, users_page, roles_page, permissions_page, audit_page, user_creation, user_detail,
  user_deletion, user_change, role_assignment, needed,
}
use django_ninja_rbac_authen.Migrations.{migrate}
use django_ninja_rbac_authen.Migrations.Agreement.{migrated}

-- The tables after the migrations, with these links between users and roles.
abbrev pub with_links : List UserRole → RbacTables
with_links links = record migrated { user_roles = links }

-- The same tables, written out.
abbrev permission : ℕ → String → Permission
permission id code = record { id = id; code = code }

abbrev grant : ℕ → RolePermission
grant id = record { role_id = 1; permission_id = id }

abbrev written_out : List UserRole → RbacTables
written_out links = record {
  roles = record { id = 1; name = "admin" } ∷ record { id = 2; name = "user" } ∷ [];
  permissions =
      permission 1 "user.create"
      ∷ permission 2 "user.read"
      ∷ permission 3 "user.update"
      ∷ permission 4 "user.delete"
      ∷ permission 5 "role.assign"
      ∷ permission 6 "role.read"
      ∷ permission 7 "permission.read"
      ∷ permission 8 "audit.read"
      ∷ [];
  user_roles = links;
  role_permissions =
      grant 1 ∷ grant 2 ∷ grant 3 ∷ grant 4 ∷ grant 5 ∷ grant 6 ∷ grant 7 ∷ grant 8 ∷ [];
}

with_links-written_out : (links : List UserRole) → with_links links ≡ written_out links
unfolding migrate
with_links-written_out links = refl

module _ (user : ℕ) (links : List UserRole) (h : any (is_link user 1) links ≡ true) where
  held :
      (p : Permission)
      → find (λ q. str_eq q.code p.code) (written_out links).permissions ≡ some p
      → any (is_grant 1 p.id) (written_out links).role_permissions ≡ true
      → has_permission user p.code (written_out links) ≡ true
  held p found granted = granted_and_linked user 1 p.code (written_out links) p found granted h

  linked_may : (call : AdminCall) → has_permission user (needed call) (written_out links) ≡ true
  linked_may (users_page _ _) = held (permission 2 "user.read") refl refl
  linked_may (roles_page _ _) = held (permission 6 "role.read") refl refl
  linked_may (permissions_page _ _) = held (permission 7 "permission.read") refl refl
  linked_may (audit_page _ _ _) = held (permission 8 "audit.read") refl refl
  linked_may (user_creation _) = held (permission 1 "user.create") refl refl
  linked_may (user_detail _) = held (permission 2 "user.read") refl refl
  linked_may (user_deletion _) = held (permission 4 "user.delete") refl refl
  linked_may (user_change _ _) = held (permission 3 "user.update") refl refl
  linked_may (role_assignment _ _) = held (permission 5 "role.assign") refl refl

role_key-eq : (role : Role) → some role ≡ some (record { id = 1; name = "admin" }) → role.id ≡ 1
role_key-eq role h = ground (arith, h)

-- Where an address has an account with the role admin, as `bootstrap_admin` leaves it, and the
-- roles, permissions and grants are those of the migrations, the account holds the permission of
-- every administrative route.
pub administrator_may :
    (platform : Platform) (joined call_number : ℕ) (email : String) (role : Role)
    (links : List UserRole) (s : Db) (call : AdminCall)
    → IsAdministrator platform joined call_number email role s
    → s.rbac ≡ with_links links
    → (u : User) × (find (has_email (normalize_email platform email)) s.users.rows ≡ some u)
      × (has_permission u.id (needed call) s.rbac ≡ true)
administrator_may platform joined call_number email role links s call (u, f, _, r, linked) tables =
    let same : s.rbac ≡ written_out links = tables ∙ with_links-written_out links in
    let first : role.id ≡ 1 =
      role_key-eq role
        (sym r ∙ ap (λ (t : RbacTables). find (λ x. str_eq x.name "admin") t.roles) same) in
    (
      u,
      f,
      subst (λ t. has_permission u.id (needed call) t ≡ true) (sym same)
          (linked_may u.id links
            (subst (λ n. any (is_link u.id n) links ≡ true) first
              (subst (λ (t : RbacTables). any (is_link u.id role.id) t.user_roles ≡ true) same
                linked))
            call),
    )
