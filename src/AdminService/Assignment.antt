-- ===== src/AdminService/Assignment.antt =====
-- apps/accounts/services/admin.py: what `assign_role` does on each of its branches.
use django_ninja_rbac_authen.Prelude.{
  ℕ, ◌≡◌, refl, ap, ◌∙◌, inl, inr, Bool, ◌&&◌, ◌||◌, Option, none, some, String, ◌==◌, ==_iff, find,
  find_test, Option-cases, Bool-cases, any, pos,
}
use django_ninja_rbac_authen.Effects.{Result, ok, err}
use django_ninja_rbac_authen.Metadata.{int, str, field, end}
use django_ninja_rbac_authen.Platform.{Deployment}
use django_ninja_rbac_authen.Users.{User, has_id}
use django_ninja_rbac_authen.Rbac.{Role, is_link, aassign_role}
use django_ninja_rbac_authen.Rbac.Inheritance.{has_permission}
use django_ninja_rbac_authen.Rbac.Assigned.{role_grants, has_permission-assign_role}
use django_ninja_rbac_authen.AuditLogs.{AuditContext, role_assign}
use django_ninja_rbac_authen.AuditService.{Event}
use django_ninja_rbac_authen.AuditService.Effect.{record_event-ok, logged, logged-OnlyLogs}
use django_ninja_rbac_authen.World.{World}
use django_ninja_rbac_authen.AdminService.{not_found, user_event, assign_role}

module _ (d : Deployment) where
  abbrev has_role_id : ℕ → Role → Bool
  has_role_id role_id r = r.id == role_id

  -- What the service may do, by the user and the role that are found.
  abbrev pub Assigns :
      ℕ
      → ℕ
      → ℕ
      → String
      → World d
      → Result (Unit {0}) × World d
      → Option User
      → Option Role
      → Type 0
  Assigns user_id role_id v code w after none role = after ≡ (err (not_found "User not found."), w)
  Assigns user_id role_id v code w after (some u) none =
      after ≡ (err (not_found "Role not found."), w)
  Assigns user_id role_id v code w after (some u) (some r) =
      (after.0 ≡ ok tt)
      × (has_permission v code after.1.db.rbac ≡ (
          has_permission v code w.db.rbac || (v == user_id && role_grants role_id code w.db.rbac)))
      × (after.1.db.users ≡ w.db.users)
      × (after.1.db.tokens ≡ w.db.tokens)
      × (after.1.redis ≡ w.redis)

  abbrev assignment : ℕ → Role → Event
  assignment user_id r =
      user_event role_assign user_id
        (some (field "role_id" (int (pos r.id)) (field "role_name" (str r.name) end)))

  abbrev assigned_state : ℕ → ℕ → World d → World d
  assigned_state user_id role_id w = record w {
    db = record w.db { rbac = (aassign_role user_id role_id w.db.rbac).1 };
  }

  module _ (user_id role_id : ℕ) (context : AuditContext) (w : World d) where
    no_user :
        find (has_id user_id) w.db.users.rows ≡ none
        → assign_role d user_id role_id context w ≡ (err (not_found "User not found."), w)
    unfolding assign_role
    no_user h = rw h refl

    no_role :
        (u : User)
        → find (has_id user_id) w.db.users.rows ≡ some u
        → find (has_role_id role_id) w.db.rbac.roles ≡ none
        → assign_role d user_id role_id context w ≡ (err (not_found "Role not found."), w)
    unfolding assign_role
    no_role u h k = rw (h, k) refl

    assigned :
        (u : User) (r : Role)
        → find (has_id user_id) w.db.users.rows ≡ some u
        → find (has_role_id role_id) w.db.rbac.roles ≡ some r
        → assign_role d user_id role_id context w
          ≡ (ok tt, logged d (assignment user_id r) context (assigned_state user_id r.id w))
    unfolding assign_role
    assigned u r h k = elim (Bool-cases (any (is_link user_id r.id) w.db.rbac.user_roles)) [
      | inl there ↦ rw (h, k, there, record_event-ok) refl
      | inr new ↦ rw (h, k, new, record_event-ok) refl
    ]

    assigned-Assigns :
        (v : ℕ) (code : String) (u : User) (r : Role)
        → find (has_id user_id) w.db.users.rows ≡ some u
        → find (has_role_id role_id) w.db.rbac.roles ≡ some r
        → Assigns user_id role_id v code w
            (assign_role d user_id role_id context w)
            (some u)
            (some r)
    assigned-Assigns v code u r h k =
        let kept =
          logged-OnlyLogs d (assignment user_id r) context (assigned_state user_id r.id w) in
        let is_role : r.id ≡ role_id =
          (==_iff r.id role_id).0 (find_test (has_role_id role_id) w.db.rbac.roles r k) in
        rw (assigned u r h k) (
          refl,
          ap (has_permission v code) (kept.rbac)
              ∙ has_permission-assign_role user_id r.id v w.db.rbac code
              ∙ ap
                  (λ q.
                    has_permission v code w.db.rbac
                    || (v == user_id && role_grants q code w.db.rbac))
                  is_role,
          kept.users,
          kept.tokens,
          kept.redis,
        )

    -- Assigning a role to a user that does not exist, or a role that does not exist, is answered as not
    -- found, the user first, and nothing changes. Otherwise it succeeds: the user then has the
    -- permissions that it had and those that the role is granted, every other user has those it had, and
    -- the users, the refresh tokens and Redis are as they were.
    pub assign_role-Assigns :
        (v : ℕ) (code : String)
        → Assigns user_id role_id v code w
            (assign_role d user_id role_id context w)
            (find (has_id user_id) w.db.users.rows)
            (find (has_role_id role_id) w.db.rbac.roles)
    assign_role-Assigns v code = elim (Option-cases (find (has_id user_id) w.db.users.rows)) [
      | inl h ↦ rw h (no_user h)
      | inr (u, h) ↦ elim (Option-cases (find (has_role_id role_id) w.db.rbac.roles)) [
        | inl k ↦ rw (h, k) (no_role u h k)
        | inr (r, k) ↦ rw (h, k) (assigned-Assigns v code u r h k)
      ]
    ]
