-- ===== src/Guard/Authorization.antt =====
-- From the role tables to the permission check: what a token issued by the service lets its bearer do.
use django_ninja_rbac_authen.Prelude.{
  ℕ, suc, ◌*◌, ◌/◌, ◌≤◌, ◌<◌, ◌≡◌, refl, sym, ap, ◌∙◌, Bool, true, false, some, List, String, arith,
  if◌then◌else◌, inl, inr, Bool-cases,
}
use django_ninja_rbac_authen.Errors.{raised, permission_denied}
use django_ninja_rbac_authen.Effects.{Result, ok, err}
use django_ninja_rbac_authen.Decimal.{str_of}
use django_ninja_rbac_authen.Platform.{Payload, Deployment}
use django_ninja_rbac_authen.Rbac.{RbacTables, aget_user_permission_codes}
use django_ninja_rbac_authen.Rbac.Inheritance.{has_permission, permission_codes_iff}
use django_ninja_rbac_authen.Jwt.{sorted_set}
use django_ninja_rbac_authen.Jwt.RoundTrip.{IsCarried, claims_read}
use django_ninja_rbac_authen.Jwt.Sorting.{contains, contains-sorted_set}
use django_ninja_rbac_authen.World.{World, Service}
use django_ninja_rbac_authen.Guard.{Principal, authenticate, require_permission}
use django_ninja_rbac_authen.Guard.Access.{admission, authenticate-encode}

-- The payload carries the permission codes that the repository reads for the user.
abbrev pub CarriesPermissions : ℕ → RbacTables → Payload → Type 0
CarriesPermissions user s p =
    (codes : List String) × (aget_user_permission_codes user s ≡ (ok codes, s))
    × (p.perms ≡ sorted_set codes)

carried-has_permission :
    (user : ℕ) (code : String) (s : RbacTables) (p : Payload)
    → CarriesPermissions user s p
    → contains code p.perms ≡ has_permission user code s
carried-has_permission user code s p (codes, read, same) =
    let (codes', read', iff) = permission_codes_iff user code s in
    let equal : codes ≡ codes' = ground (arith, read, read') in
    ap (contains code) same ∙ contains-sorted_set code codes ∙ ap (contains code) equal ∙ iff

module _ (d : Deployment) where
  admission-permissions :
      (user : ℕ) (p : Payload) (q : Principal) (r : Result Bool)
      → admission d user (claims_read p) r ≡ ok q
      → q.permissions ≡ p.perms
  admission-permissions user p q (ok true) h = absurd (ground (arith, h))
  admission-permissions user p q (ok false) h = ground (arith, h)
  admission-permissions user p q (err e) h = absurd (ground (arith, h))

  -- Whoever presents a token that was issued to a user with the permission codes of some tables, within
  -- its lifetime, and is admitted, passes `require_permission` exactly if the user had the permission in
  -- those tables: then the view runs, and otherwise `PermissionDenied` is raised and nothing changes.
  pub authorized_as_issued :
      {A : Type 0} (user : ℕ) (code : String) (s : RbacTables) (p : Payload) (w w' : World d)
      (q : Principal) (view : Service d A)
      → IsCarried p
      → p.sub ≡ str_of (suc user)
      → CarriesPermissions (suc user) s p
      → p.iat ≤ d.platform.now w.calls
      → d.platform.now w.calls < p.exp / 1000000 * 1000000
      → (authenticate d (d.jwt.encode p d.settings.jwt_secret) w).0 ≡ ok q
      → require_permission d code (some q) view w' ≡ (
          if has_permission (suc user) code s
          then view w'
          else (err (raised permission_denied), w'))
  unfolding require_permission
  authorized_as_issued user code s p w w' q view carried sub perms issued live h =
      let same : contains code q.permissions ≡ has_permission (suc user) code s =
        ap (contains code) (
          admission-permissions (suc user) p q _
            (sym (authenticate-encode d p user w carried sub issued live) ∙ h))
        ∙ carried-has_permission (suc user) code s p perms in
      elim (Bool-cases (has_permission (suc user) code s)) [
        | inl has ↦ rw (same, has) refl
        | inr lacks ↦ rw (same, lacks) refl
      ]
