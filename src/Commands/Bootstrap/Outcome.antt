-- ===== src/Commands/Bootstrap/Outcome.antt =====
-- What `bootstrap_admin` leaves behind, and that it may be run again.
use django_ninja_rbac_authen.Prelude.{
  ℕ, ◌+◌, ◌≡◌, ◌≢◌, refl, ap, ◌∙◌, ◌⊎◌, inl, inr, Bool, true, false, not, ◌&&◌, some, none, String,
  str_eq, eq_iff, eq_refl, arith, ◌==◌, find, any, find-update_where, find-append_new, find-none,
  [], ◌∷◌, ◌++◌, Bool-cases,
}
use django_ninja_rbac_authen.Effects.{ok}
use django_ninja_rbac_authen.Platform.{Platform}
use django_ninja_rbac_authen.Users.{
  User, UserTable, has_email, has_id, is_taken_by, normalize_email,
}
use django_ninja_rbac_authen.Users.Manager.{built_user, create_superuser, create_user}
use django_ninja_rbac_authen.Rbac.{Role, RbacTables, is_link, aassign_role}
use django_ninja_rbac_authen.Rbac.Inheritance.{linked-aassign_role}
use django_ninja_rbac_authen.World.{Db}
use django_ninja_rbac_authen.Commands.Bootstrap.{
  Arguments, Report, password, flagged, ensure_django_admin_flags, admin_role, assigned, bootstrap,
  account, with_password, with_role,
}

-- The account may be used for the admin site.
abbrev pub IsFlagged : User → Type 0
IsFlagged u = (u.is_active ≡ true) × (u.is_staff ≡ true) × (u.is_superuser ≡ true)

module _ (platform : Platform) (joined call : ℕ) where
  -- The address has an account with all flags and the role.
  abbrev pub IsAdministrator : String → Role → Db → Type 0
  IsAdministrator email role s =
      (u : User) × (find (has_email (normalize_email platform email)) s.users.rows ≡ some u)
      × IsFlagged u
      × (admin_role platform joined call s ≡ some role)
      × (any (is_link u.id role.id) s.rbac.user_roles ≡ true)

  abbrev again : Report
  again = record { created = false; role_created = false }

  -- A second run finds everything in place.
  bootstrap-again :
      (a : Arguments) (role : Role) (s : Db)
      → IsAdministrator a.email role s
      → bootstrap platform joined call a s ≡ (ok again, s)
  unfolding bootstrap with_role account assigned ensure_django_admin_flags aassign_role
  bootstrap-again a role s (u, f, (active, staff, superuser), r, linked) =
      rw (r, f, active, staff, superuser, linked) (rw linked refl)

  -- What the command needs: the role, and either an account under the address or what it takes to create
  -- one.
  abbrev pub IsReady : Arguments → Role → Db → Type 0
  IsReady a role s =
      (admin_role platform joined call s ≡ some role)
      × (((u : User) × (find (has_email (normalize_email platform a.email)) s.users.rows ≡ some u))
          ⊎ ((p : String) × (password a ≡ some p)
              × (normalize_email platform a.email ≢ "")
              × (normalize_email platform (normalize_email platform a.email)
                  ≡ normalize_email platform a.email)
              × (find (has_email (normalize_email platform a.email)) s.users.rows ≡ none)
              × (any (is_taken_by platform (normalize_email platform a.email)) s.users.rows
                  ≡ false)))

  aassign_role-ok :
      (u r : ℕ) (t : RbacTables)
      → ((aassign_role u r t).0 ≡ ok (record { user_id = u; role_id = r }))
        × ((aassign_role u r t).1.roles ≡ t.roles)
  unfolding aassign_role
  aassign_role-ok u r t = elim (Bool-cases (any (is_link u r) t.user_roles)) [
    | inl there ↦ rw there (refl, refl)
    | inr new ↦ rw new (refl, refl)
  ]

  abbrev report : ℕ → ℕ → Bool → Db → Report
  report user_id role_id created s = record {
    created = created;
    role_created = not (any (is_link user_id role_id) s.rbac.user_roles);
  }

  -- The steps behind the account: the role is assigned.
  assigned-eq :
      (user_id role_id : ℕ) (created : Bool) (s : Db)
      → assigned platform joined call user_id role_id created s ≡ (
        ok (report user_id role_id created s),
        record s { rbac = (aassign_role user_id role_id s.rbac).1 },
      )
  unfolding assigned aassign_role
  assigned-eq user_id role_id created s = rw (aassign_role-ok user_id role_id s.rbac).0 refl

  ensure-found :
      (email : String) (u : User) (t : UserTable)
      → find (has_email email) t.rows ≡ some u
      → ((ensure_django_admin_flags u t).0 ≡ ok tt)
        × ((v : User) × (find (has_email email) (ensure_django_admin_flags u t).1.rows ≡ some v)
            × IsFlagged v
            × (v.id ≡ u.id))
  unfolding ensure_django_admin_flags
  ensure-found email u t f = elim (Bool-cases (u.is_active && u.is_staff && u.is_superuser)) [
    | inl all ↦ rw all (refl, (u, f, ground (arith, all), refl))
    | inr some_off ↦ rw some_off (
      refl,
      (
        flagged u,
        find-update_where (has_email email) (has_id u.id) flagged t.rows u (λ v. refl) f
            ∙ ap some (rw (same_id u.id) refl),
        (refl, refl, refl),
        refl,
      ),
    )
  ]
    where
      same_id : (n : ℕ) → (n == n) ≡ true
      same_id n = ground arith

  account-found :
      (a : Arguments) (email : String) (u : User) (s : Db)
      → find (has_email email) s.users.rows ≡ some u
      → account platform joined call a email (some u) s
        ≡ (ok (u.id, false), record s { users = (ensure_django_admin_flags u s.users).1 })
  unfolding account ensure_django_admin_flags
  account-found a email u s f = rw (ensure-found email u s.users f).0 refl

  abbrev administrator : String → String → Db → User
  administrator email p s =
      built_user platform joined call s.users.next_id email p
        (record { is_active = none; is_staff = some true; is_superuser = some true })

  account-created :
      (a : Arguments) (email p : String) (s : Db)
      → password a ≡ some p
      → email ≢ ""
      → normalize_email platform email ≡ email
      → any (is_taken_by platform email) s.users.rows ≡ false
      → account platform joined call a email none s ≡ (
        ok (s.users.next_id, true),
        record s {
          users = record {
            rows = s.users.rows ++ administrator email p s ∷ [];
            next_id = s.users.next_id + 1;
          };
        },
      )
  unfolding account with_password create_superuser create_user
  account-created a email p s has_password nonempty same free =
      let not_empty : str_eq email "" ≡ false = ground (arith, nonempty, eq_iff email "") in
      rw (has_password, not_empty, same, free) refl

  -- The command behind the account: what it returns, and that its run is complete.
  abbrev Completes : Arguments → Role → Db → Type 0
  Completes a role s =
      (r : Report) × (s' : Db) × (bootstrap platform joined call a s ≡ (ok r, s'))
      × IsAdministrator a.email role s'
      × (bootstrap platform joined call a s' ≡ (ok again, s'))

  completes :
      (a : Arguments) (role : Role) (s s₁ : Db) (user_id : ℕ) (created : Bool) (u : User)
      → admin_role platform joined call s ≡ some role
      → account platform joined call a
          (normalize_email platform a.email)
          (find (has_email (normalize_email platform a.email)) s.users.rows)
          s
        ≡ (ok (user_id, created), s₁)
      → s₁.rbac ≡ s.rbac
      → find (has_email (normalize_email platform a.email)) s₁.users.rows ≡ some u
      → IsFlagged u
      → u.id ≡ user_id
      → Completes a role s
  unfolding bootstrap with_role
  completes a role s s₁ user_id created u r acc same f flags e =
      let s' : Db = record s₁ { rbac = (aassign_role user_id role.id s₁.rbac).1 } in
      let (linked, _, _, _) = linked-aassign_role user_id role.id s₁.rbac in
      let (_, roles) = aassign_role-ok user_id role.id s₁.rbac in
      let admin : IsAdministrator a.email role s' =
        (u, f, flags, rw (roles, same) r, rw e linked) in
      (
        report user_id role.id created s₁,
        s',
        rw (r, acc, assigned-eq user_id role.id created s₁) refl,
        admin,
        bootstrap-again a role s' admin,
      )

  -- With the role in the tables, and an account under the address, or a password and a free address
  -- in normal form that is not empty, the command succeeds: the address has an active account with
  -- both flags and the admin role. A second run reports that nothing was left to do, and changes
  -- nothing.
  pub bootstrap_succeeds :
      (a : Arguments) (role : Role) (s : Db) → IsReady a role s → Completes a role s
  bootstrap_succeeds a role s (r, inl (u, f)) =
      let email : String = normalize_email platform a.email in
      let (_, (v, f', flags, e)) = ensure-found email u s.users f in
      completes a role s (record s { users = (ensure_django_admin_flags u s.users).1 }) u.id false v
        r (rw f (account-found a email u s f)) refl f' flags e
  bootstrap_succeeds a role s (r, inr (p, has_password, nonempty, same, absent, free)) =
      let email : String = normalize_email platform a.email in
      let u : User = administrator email p s in
      completes a role s
        (record s {
          users = record { rows = s.users.rows ++ u ∷ []; next_id = s.users.next_id + 1 };
        })
        s.users.next_id true u r
        (rw absent (account-created a email p s has_password nonempty same free)) refl
        (find-append_new (has_email email) s.users.rows u
          (find-none (has_email email) s.users.rows absent) (rw same (eq_refl email)))
        (refl, refl, refl) refl
