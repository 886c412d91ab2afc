-- ===== src/Migrations/Reversal.antt =====
-- Reversing the data migration 0006 of apps/authz/migrations.
use django_ninja_rbac_authen.Prelude.{
  suc, ◌≤◌, ◌≡◌, refl, inl, inr, Bool, true, false, not, none, some, List, [], ◌∷◌, ◌++◌, arith,
  ◌==◌, find, any, select, length, All, All-map, find-none, find-append_new, Option-cases, any-none,
}
use django_ninja_rbac_authen.Effects.{ok}
use django_ninja_rbac_authen.Rbac.{Role, Permission, RolePermission, RbacTables, is_grant}
use django_ninja_rbac_authen.Migrations.{
  has_code, has_name, delete_permission, add_audit_read_permission, remove_audit_read_permission,
}

select-all {ℓ} :
    {A : Type ℓ} (q : A → Bool) (xs : List A) → All (λ x. q x ≡ true) xs → select q xs ≡ xs
select-all q [] h = refl
select-all q (x ∷ xs) h = rw (h.0, select-all q xs h.1) refl

-- The last row goes and the others stay.
select-append_last {ℓ} :
    {A : Type ℓ} (q : A → Bool) (xs : List A) (y : A)
    → All (λ x. q x ≡ true) xs
    → q y ≡ false
    → select q (xs ++ y ∷ []) ≡ xs
select-append_last q [] y h k = rw k refl
select-append_last q (x ∷ xs) y h k = rw (h.0, select-append_last q xs y h.1 k) refl

-- The keys of permissions are those that the sequence has given, also where grants refer to them.
pub record KeysGiven (s : RbacTables) : Type 0 where
  pub permissions : All (λ (p : Permission). p.id ≤ length s.permissions) s.permissions
  pub grants :
      All (λ (g : RolePermission). g.permission_id ≤ length s.permissions) s.role_permissions

module _ (s : RbacTables) (unknown : find (has_code "audit.read") s.permissions ≡ none)
    (keys : KeysGiven s) where
  abbrev added : Permission
  added = record { id = suc (length s.permissions); code = "audit.read" }

  -- Deleting the permission takes it back from the end of its table, and its grants with it.
  delete-added :
      (gs : List RolePermission)
      → select (λ g. not (g.permission_id == suc (length s.permissions))) gs ≡ s.role_permissions
      → delete_permission
          (some added)
          (record s { permissions = s.permissions ++ added ∷ []; role_permissions = gs })
        ≡ (ok tt, s)
  unfolding delete_permission
  delete-added gs h =
      let same_permissions =
        select-append_last (λ p. not (p.id == added.id)) s.permissions added
          (All-map _ _ s.permissions (λ p le. ground (arith, le)) keys.permissions)
          (ground arith) in
      λ i. (ok tt, record s { permissions = same_permissions i; role_permissions = h i })

  find-added : find (has_code "audit.read") (s.permissions ++ added ∷ []) ≡ some added
  find-added =
      find-append_new (has_code "audit.read") s.permissions added
        (find-none (has_code "audit.read") s.permissions unknown) refl

  old_grants : All (λ g. not (g.permission_id == added.id) ≡ true) s.role_permissions
  old_grants = All-map _ _ s.role_permissions (λ g le. ground (arith, le)) keys.grants

  not_granted : (r : Role) → any (is_grant r.id added.id) s.role_permissions ≡ false
  not_granted r =
      any-none (is_grant r.id added.id) s.role_permissions
        (All-map _ _ s.role_permissions (λ g le. ground (arith, le)) keys.grants)

  add-plain :
      find (has_name "admin") s.roles ≡ none
      → add_audit_read_permission s
        ≡ (ok tt, record s { permissions = s.permissions ++ added ∷ [] })
  unfolding add_audit_read_permission
  add-plain h = rw (unknown, h) refl

  add-granted :
      (r : Role)
      → find (has_name "admin") s.roles ≡ some r
      → add_audit_read_permission s ≡ (
        ok tt,
        record s {
          permissions = s.permissions ++ added ∷ [];
          role_permissions =
              s.role_permissions ++ record { role_id = r.id; permission_id = added.id } ∷ [];
        },
      )
  unfolding add_audit_read_permission
  add-granted r h = rw (unknown, h, not_granted r) refl

  remove-added :
      (gs : List RolePermission)
      → select (λ g. not (g.permission_id == added.id)) gs ≡ s.role_permissions
      → remove_audit_read_permission
          (record s { permissions = s.permissions ++ added ∷ []; role_permissions = gs })
        ≡ (ok tt, s)
  unfolding remove_audit_read_permission
  remove-added gs h = rw find-added (unfold delete_permission in delete-added gs h)

  -- In a database whose permissions have no audit.read yet, and whose keys were given by the sequence,
  -- migration 0006 succeeds, and reversing it leaves every row as it was before.
  pub remove-add_audit_read :
      ((add_audit_read_permission s).0 ≡ ok tt)
      × (remove_audit_read_permission (add_audit_read_permission s).1 ≡ (ok tt, s))
  remove-add_audit_read = elim (Option-cases (find (has_name "admin") s.roles)) [
    | inl no_admin ↦
        rw (add-plain no_admin)
          (refl, remove-added s.role_permissions (select-all _ s.role_permissions old_grants))
    | inr (r, is_admin) ↦ rw (add-granted r is_admin) (
      refl,
      remove-added (s.role_permissions ++ record { role_id = r.id; permission_id = added.id } ∷ [])
          (select-append_last (λ g. not (g.permission_id == added.id)) s.role_permissions
            (record { role_id = r.id; permission_id = added.id }) old_grants (ground arith)),
    )
  ]
