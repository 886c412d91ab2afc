-- ===== src/Rbac/Assigned.antt =====
-- Exactly which permissions `aassign_role` (apps/authz/repositories/rbac.py) gives, and to whom.
use django_ninja_rbac_authen.Prelude.{
  ℕ, ◌≡◌, refl, ap, ◌∙◌, inl, inr, Bool, true, false, ◌&&◌, ◌||◌, String, arith, str_eq, ◌==◌, any,
  Bool-cases, any_if, any_or, any_guard, any-append_one,
}
use django_ninja_rbac_authen.Rbac.{
  RolePermission, Permission, RbacTables, is_link, is_inherited, aassign_role,
}
use django_ninja_rbac_authen.Rbac.Inheritance.{has_permission, linked-aassign_role}

or_false : (b : Bool) → b ≡ (b || false)
or_false true = refl
or_false false = refl

-- The role is granted a permission of this code.
abbrev pub role_grants : ℕ → String → RbacTables → Bool
role_grants role_id code s =
    any
      (λ p.
        str_eq p.code code
        && any (λ g. g.permission_id == p.id && g.role_id == role_id) s.role_permissions)
      s.permissions

-- The links of any user behind an assignment.
links_after :
    (u r v q : ℕ) (s : RbacTables)
    → any (is_link v q) (aassign_role u r s).1.user_roles
      ≡ (any (is_link v q) s.user_roles || (v == u && q == r))
unfolding aassign_role
links_after u r v q s = elim (Bool-cases (any (is_link u r) s.user_roles)) [
  | inr new ↦ rw new (
      any-append_one (is_link v q) s.user_roles (record { user_id = u; role_id = r })
      ∙ ground arith)
  | inl there ↦ rw there (elim (Bool-cases (v == u && q == r)) [
    | inr other ↦ rw other (or_false (any (is_link v q) s.user_roles))
    | inl both ↦
        let same_user : v ≡ u = ground arith in
        let same_role : q ≡ r = ground arith in
        let linked : any (is_link v q) s.user_roles ≡ true = rw (same_user, same_role) there in
        rw linked refl
  ])
]

module _ (u r v : ℕ) (s : RbacTables) where
  abbrev s' : RbacTables
  s' = (aassign_role u r s).1

  abbrev granted_to : RolePermission → Permission → Bool
  granted_to g p = g.permission_id == p.id && g.role_id == r

  inherited_after :
      (p : Permission)
      → is_inherited v s' p
        ≡ (is_inherited v s p || (v == u && any (λ g. granted_to g p) s.role_permissions))
  inherited_after p =
      ap (any (λ g. g.permission_id == p.id && any (is_link v g.role_id) s'.user_roles))
        (linked-aassign_role u r s).2
      ∙ any_if _
          (λ g.
            (g.permission_id == p.id && any (is_link v g.role_id) s.user_roles)
            || (v == u && granted_to g p))
          s.role_permissions (λ g. ground (arith, links_after u r v g.role_id s))
      ∙ any_or (λ g. g.permission_id == p.id && any (is_link v g.role_id) s.user_roles)
          (λ g. v == u && granted_to g p) s.role_permissions
      ∙ ap (λ b. is_inherited v s p || b)
          (any_guard (v == u) (λ g. granted_to g p) s.role_permissions)

  -- Behind an assignment a user has the permissions it had before, and the assigned user also those
  -- that the role is granted.
  pub has_permission-assign_role :
      (code : String)
      → has_permission v code s' ≡ (has_permission v code s || (v == u && role_grants r code s))
  has_permission-assign_role code =
      ap (any (λ p. str_eq p.code code && is_inherited v s' p)) (linked-aassign_role u r s).3
      ∙ any_if _
          (λ p.
            (str_eq p.code code && is_inherited v s p)
            || (v == u && (str_eq p.code code && any (λ g. granted_to g p) s.role_permissions)))
          s.permissions (λ p. ground (arith, inherited_after p))
      ∙ any_or (λ p. str_eq p.code code && is_inherited v s p)
          (λ p. v == u && (str_eq p.code code && any (λ g. granted_to g p) s.role_permissions))
          s.permissions
      ∙ ap (λ b. has_permission v code s || b)
          (any_guard (v == u)
            (λ p. str_eq p.code code && any (λ g. granted_to g p) s.role_permissions) s.permissions)
