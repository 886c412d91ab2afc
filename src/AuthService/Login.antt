-- ===== src/AuthService/Login.antt =====
-- apps/authz/services/auth.py: who `login` lets in.
use django_ninja_rbac_authen.Prelude.{
  ◌≡◌, ◌≢◌, refl, ◌⊎◌, inl, inr, true, false, none, some, String, arith, str_eq, eq_iff, find,
  Bool-cases, Option-cases,
}
use django_ninja_rbac_authen.Errors.{raised, invalid_credentials}
use django_ninja_rbac_authen.Effects.{ok, err}
use django_ninja_rbac_authen.Platform.{Deployment}
use django_ninja_rbac_authen.Users.{User, has_email, normalize_email, aget_credentials}
use django_ninja_rbac_authen.AuditLogs.{AuditContext, login_failure}
use django_ninja_rbac_authen.AuditService.{Event, failure}
use django_ninja_rbac_authen.AuditService.Effect.{
  OnlyLogs, logged, record_event-ok, logged-OnlyLogs,
}
use django_ninja_rbac_authen.World.{World}
use django_ninja_rbac_authen.AuthService.{
  TokenPair, event, single, verify_password, refuse_login, decide_login, login,
}

module _ (d : Deployment) where
  -- The row under an address, as the tables compare addresses.
  abbrev pub IsAccount : String → World d → User → Type 0
  IsAccount email w u = find (has_email (normalize_email d.platform email)) w.db.users.rows ≡ some u

  -- No account, an account that is switched off, or a password that does not fit its hash.
  abbrev pub IsRefused : String → String → World d → Type 0
  IsRefused email password w =
      (find (has_email (normalize_email d.platform email)) w.db.users.rows ≡ none)
      ⊎ ((u : User) × IsAccount email w u
          × ((u.is_active ≡ false)
              ⊎ (u.password ≡ "")
              ⊎ (d.platform.check_password password u.password ≡ false)))

  abbrev pub failed_login : String → Event
  failed_login email = event login_failure failure (single "email" email)

  refuse_login-eq :
      (email : String) (context : AuditContext) (w : World d)
      → refuse_login d email context w
        ≡ (err (raised invalid_credentials), logged d (failed_login email) context w)
  unfolding refuse_login
  refuse_login-eq email context w = rw record_event-ok refl

  wrong_password :
      (password : String) (u : User)
      → (u.password ≡ "") ⊎ (d.platform.check_password password u.password ≡ false)
      → verify_password d password (some u.password) ≡ false
  unfolding verify_password
  wrong_password password u h = elim (Bool-cases (str_eq u.password "")) [
    | inl unusable ↦ rw unusable refl
    | inr usable ↦ elim h [ inl e ↦ rw e refl | inr e ↦ rw (usable, e) refl ]
  ]

  -- A login without an account, with a deactivated one, or with a password that the hash does not
  -- accept (an empty hash accepts none) gets the same error, `InvalidCredentials`; nothing but the
  -- audit trail changes, by at most one row that says so.
  pub login_refused :
      (email password : String) (context : AuditContext) (w : World d)
      → IsRefused email password w
      → let after = login d email password context w in
        (after.0 ≡ err (raised invalid_credentials)) × OnlyLogs d (failed_login email) w after.1
  unfolding login decide_login aget_credentials
  login_refused email password context w (inl f) =
      rw (f, refuse_login-eq) (refl, logged-OnlyLogs d (failed_login email) context w)
  login_refused email password context w (inr (u, f, inl off)) =
      rw (f, off, refuse_login-eq) (refl, logged-OnlyLogs d (failed_login email) context w)
  login_refused email password context w (inr (u, f, inr h)) = elim (Bool-cases u.is_active) [
    | inl on ↦
        rw (f, wrong_password password u h, on, refuse_login-eq)
          (refl, logged-OnlyLogs d (failed_login email) context w)
    | inr off ↦
        rw (f, off, refuse_login-eq) (refl, logged-OnlyLogs d (failed_login email) context w)
  ]

  -- A login hands out a pair only to the holder of an active account, whose password has a hash that
  -- accepts the presented one.
  pub login_only_if :
      (email password : String) (context : AuditContext) (w : World d) (pair : TokenPair)
      → (login d email password context w).0 ≡ ok pair
      → (u : User) × IsAccount email w u
        × (u.is_active ≡ true)
        × (u.password ≢ "")
        × (d.platform.check_password password u.password ≡ true)
  login_only_if email password context w pair h =
      elim (Option-cases (find (has_email (normalize_email d.platform email)) w.db.users.rows)) [
        | inl f ↦ absurd (ground (arith, h, (login_refused email password context w (inl f)).0))
        | inr (u, f) ↦ elim (Bool-cases u.is_active) [
          | inr off ↦
              absurd (
                ground (arith, h, (login_refused email password context w (inr (u, f, inl off))).0))
          | inl on ↦ elim (Bool-cases (str_eq u.password "")) [
            | inl e ↦ absurd (
                ground (
                  arith,
                  h,
                  (login_refused email password context w
                      (inr (u, f, inr (inl ((eq_iff u.password "").0 e))))).0,
                ))
            | inr n ↦ elim (Bool-cases (d.platform.check_password password u.password)) [
              | inr e ↦ absurd (
                  ground (
                    arith,
                    h,
                    (login_refused email password context w (inr (u, f, inr (inr e)))).0,
                  ))
              | inl e ↦ (u, f, on, λ k. ground (arith, eq_iff u.password ""), e)
            ]
          ]
        ]
      ]
