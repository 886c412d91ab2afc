-- ===== src/Rbac/Inheritance.antt =====
-- The permissions of a user: those granted to one of its roles.
use django_ninja_rbac_authen.Prelude.{
  ℕ, ◌≡◌, refl, Bool, true, ◌&&◌, List, [], ◌∷◌, String, str_eq, arith, any, select, inl, inr,
  Bool-cases, any-append_last, any-append_left,
}
use django_ninja_rbac_authen.Effects.{ok}
use django_ninja_rbac_authen.Jwt.Sorting.{contains}
use django_ninja_rbac_authen.Rbac.{
  Permission, UserRole, RolePermission, RbacTables, is_link, is_grant, is_inherited, codes_of,
  aget_user_permission_codes, aassign_role, agrant_permission,
}

-- The user holds the permission through a role.
abbrev pub has_permission : ℕ → String → RbacTables → Bool
has_permission user code s = any (λ p. str_eq p.code code && is_inherited user s p) s.permissions

contains-codes :
    (code : String) (q : Permission → Bool) (ps : List Permission)
    → contains code (codes_of (select q ps)) ≡ any (λ p. str_eq p.code code && q p) ps
contains-codes code q [] = refl
contains-codes code q (p ∷ ps) = elim (Bool-cases (q p)) [
  | inl e ↦ rw e (ground (arith, contains-codes code q ps))
  | inr e ↦ rw e (ground (arith, contains-codes code q ps))
]

-- `aget_user_permission_codes` returns a code exactly when the user has a role to which a permission
-- of that code is granted; it changes nothing.
pub permission_codes_iff :
    (user : ℕ) (code : String) (s : RbacTables)
    → (codes : List String) × (aget_user_permission_codes user s ≡ (ok codes, s))
      × (contains code codes ≡ has_permission user code s)
unfolding aget_user_permission_codes
permission_codes_iff user code s = (
  codes_of (select (is_inherited user s) s.permissions),
  refl,
  contains-codes code (is_inherited user s) s.permissions,
)

-- The links that `aassign_role` leaves hold the new pair and all the old ones.
pub linked-aassign_role :
    (u r : ℕ) (s : RbacTables)
    → (any (is_link u r) (aassign_role u r s).1.user_roles ≡ true)
      × ((q : UserRole → Bool)
          → any q s.user_roles ≡ true
          → any q (aassign_role u r s).1.user_roles ≡ true)
      × ((aassign_role u r s).1.role_permissions ≡ s.role_permissions)
      × ((aassign_role u r s).1.permissions ≡ s.permissions)
unfolding aassign_role
linked-aassign_role u r s = elim (Bool-cases (any (is_link u r) s.user_roles)) [
  | inl there ↦ rw there (there, λ q h. h, refl, refl)
  | inr new ↦ rw new (
    any-append_last (is_link u r) s.user_roles (record { user_id = u; role_id = r }) (ground arith),
    λ q h. any-append_left q s.user_roles (record { user_id = u; role_id = r } ∷ []) h,
    refl,
    refl,
  )
]

pub granted-agrant_permission :
    (r p : ℕ) (s : RbacTables)
    → (any (is_grant r p) (agrant_permission r p s).1.role_permissions ≡ true)
      × ((q : RolePermission → Bool)
          → any q s.role_permissions ≡ true
          → any q (agrant_permission r p s).1.role_permissions ≡ true)
      × ((agrant_permission r p s).1.user_roles ≡ s.user_roles)
      × ((agrant_permission r p s).1.permissions ≡ s.permissions)
unfolding agrant_permission
granted-agrant_permission r p s = elim (Bool-cases (any (is_grant r p) s.role_permissions)) [
  | inl there ↦ rw there (there, λ q h. h, refl, refl)
  | inr new ↦ rw new (
    any-append_last (is_grant r p) s.role_permissions (record { role_id = r; permission_id = p })
        (ground arith),
    λ q h. any-append_left q s.role_permissions (record { role_id = r; permission_id = p } ∷ []) h,
    refl,
    refl,
  )
]
