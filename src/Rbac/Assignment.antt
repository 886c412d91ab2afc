-- ===== src/Rbac/Assignment.antt =====
-- What granting a permission and assigning a role do to the permissions of users.
use django_ninja_rbac_authen.Prelude.{
  ℕ, ◌≡◌, ◌≢◌, refl, Bool, true, ◌&&◌, some, List, [], ◌∷◌, ◌++◌, String, str_eq, arith, ◌==◌, find,
  any, inl, inr, Bool-cases, find_test, ap, any_if, any_mono, any-of_find-some,
}
use django_ninja_rbac_authen.Rbac.{
  Permission, UserRole, RolePermission, RbacTables, is_link, is_grant, is_inherited, aassign_role,
  agrant_permission,
}
use django_ninja_rbac_authen.Rbac.Inheritance.{
  has_permission, linked-aassign_role, granted-agrant_permission,
}

inherited-of_grant :
    (u r : ℕ) (s : RbacTables) (p : Permission)
    → any (is_grant r p.id) s.role_permissions ≡ true
    → any (is_link u r) s.user_roles ≡ true
    → is_inherited u s p ≡ true
inherited-of_grant u r s p granted linked =
    any_mono (is_grant r p.id)
      (λ g. g.permission_id == p.id && any (is_link u g.role_id) s.user_roles) s.role_permissions
      (λ g h. holds g (ground arith) (ground arith)) granted
  where
    holds :
        (g : RolePermission)
        → r ≡ g.role_id
        → (g.permission_id == p.id) ≡ true
        → (g.permission_id == p.id && any (is_link u g.role_id) s.user_roles) ≡ true
    holds g e k = rw (k, ← e) linked

inherited_mono :
    (u : ℕ) (s s' : RbacTables) (p : Permission)
    → ((q : RolePermission → Bool)
        → any q s.role_permissions ≡ true
        → any q s'.role_permissions ≡ true)
    → ((q : UserRole → Bool) → any q s.user_roles ≡ true → any q s'.user_roles ≡ true)
    → is_inherited u s p ≡ true
    → is_inherited u s' p ≡ true
inherited_mono u s s' p grants links h =
    any_mono (λ g. g.permission_id == p.id && any (is_link u g.role_id) s.user_roles)
      (λ g. g.permission_id == p.id && any (is_link u g.role_id) s'.user_roles) s'.role_permissions
      (λ g k. ground (arith, links (is_link u g.role_id)))
      (grants (λ g. g.permission_id == p.id && any (is_link u g.role_id) s.user_roles) h)

-- A user with a role to which a permission of the code is granted has the permission.
pub granted_and_linked :
    (u r : ℕ) (code : String) (s : RbacTables) (p : Permission)
    → find (λ q. str_eq q.code code) s.permissions ≡ some p
    → any (is_grant r p.id) s.role_permissions ≡ true
    → any (is_link u r) s.user_roles ≡ true
    → has_permission u code s ≡ true
granted_and_linked u r code s p found granted linked =
    any-of_find-some (λ q. str_eq q.code code) (λ q. str_eq q.code code && is_inherited u s q)
      s.permissions p found
      (rw (find_test (λ q. str_eq q.code code) s.permissions p found)
        (inherited-of_grant u r s p granted linked))

grant_and_assign :
    (u r v : ℕ) (code other : String) (s : RbacTables) (p : Permission)
    → find (λ q. str_eq q.code code) s.permissions ≡ some p
    → let s' = (aassign_role u r (agrant_permission r p.id s).1).1 in
      (has_permission u code s' ≡ true)
      × (has_permission v other s ≡ true → has_permission v other s' ≡ true)
grant_and_assign u r v code other s p found =
    let s₁ = (agrant_permission r p.id s).1 in
    let s' = (aassign_role u r s₁).1 in
    let (granted, grants, same_links, same_perms) = granted-agrant_permission r p.id s in
    let (linked, links, same_grants, same_perms') = linked-aassign_role u r s₁ in
    (
      rw (same_perms', same_perms)
          (any-of_find-some (λ q. str_eq q.code code)
            (λ q. str_eq q.code code && is_inherited u s' q) s.permissions p found
            (rw (find_test (λ q. str_eq q.code code) s.permissions p found)
              (inherited-of_grant u r s' p (rw same_grants granted) linked))),
      λ h.
          rw (same_perms', same_perms)
            (any_mono (λ q. str_eq q.code other && is_inherited v s q)
              (λ q. str_eq q.code other && is_inherited v s' q) s.permissions
              (λ q k. ground (
                arith,
                inherited_mono v s s' q (λ t m. rw same_grants (grants t m))
                    (λ t m. links t (rw same_links m)),
              ))
              h),
    )

-- Granting a permission, under a code that exists, to a role and assigning the role to a user gives the
-- user the permission of that code.
pub grant-assign :
    (u r : ℕ) (code : String) (s : RbacTables) (p : Permission)
    → find (λ q. str_eq q.code code) s.permissions ≡ some p
    → has_permission u code (aassign_role u r (agrant_permission r p.id s).1).1 ≡ true
grant-assign u r code s p found = (grant_and_assign u r u code code s p found).0

links_of_others :
    (u r v r' : ℕ) (s : RbacTables)
    → v ≢ u
    → any (is_link v r') (aassign_role u r s).1.user_roles ≡ any (is_link v r') s.user_roles
unfolding aassign_role
links_of_others u r v r' s ne = elim (Bool-cases (any (is_link u r) s.user_roles)) [
  | inl there ↦ rw there refl
  | inr new ↦ rw new (dropped s.user_roles)
]
  where
    dropped :
        (ls : List UserRole)
        → any (is_link v r') (ls ++ record { user_id = u; role_id = r } ∷ [])
          ≡ any (is_link v r') ls
    dropped [] = ground arith
    dropped (l ∷ ls) = rw (dropped ls) refl

-- Assigning a role to one user changes the permissions of no other user, and a second assignment of
-- the same role changes nothing.
pub aassign_role-others :
    (u r v : ℕ) (code : String) (s : RbacTables)
    → v ≢ u
    → (has_permission v code (aassign_role u r s).1 ≡ has_permission v code s)
      × ((aassign_role u r (aassign_role u r s).1).1 ≡ (aassign_role u r s).1)
aassign_role-others u r v code s ne =
    let s' = (aassign_role u r s).1 in
    let (linked, _, same_grants, same_perms) = linked-aassign_role u r s in
    (
      rw same_perms (
          any_if (λ p. str_eq p.code code && is_inherited v s' p)
            (λ p. str_eq p.code code && is_inherited v s p) s.permissions
            (λ p.
              ap (λ b. str_eq p.code code && b)
                (rw same_grants (
                  any_if (λ g. g.permission_id == p.id && any (is_link v g.role_id) s'.user_roles)
                    (λ g. g.permission_id == p.id && any (is_link v g.role_id) s.user_roles)
                    s.role_permissions
                    (λ g.
                      ap (λ b. g.permission_id == p.id && b)
                        (links_of_others u r v g.role_id s ne)))))),
      assigned_again u r s' linked,
    )
  where
    assigned_again :
        (u r : ℕ) (t : RbacTables)
        → any (is_link u r) t.user_roles ≡ true
        → (aassign_role u r t).1 ≡ t
    assigned_again u r t there = unfold aassign_role in rw there refl
