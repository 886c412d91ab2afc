-- ===== src/Registration/Outcome.antt =====
-- What creating and deleting a user leaves in the database.
use django_ninja_rbac_authen.Prelude.{
  ℕ, ◌≡◌, refl, ◌⊎◌, inl, inr, Bool, true, false, not, List, [], ◌∷◌, ◌++◌, String, arith, ◌==◌,
  any, select, All, All-update_where, Bool-cases,
}
use django_ninja_rbac_authen.Effects.{Result, ok}
use django_ninja_rbac_authen.Platform.{Platform}
use django_ninja_rbac_authen.RefreshTokens
use django_ninja_rbac_authen.Users.{
  UserDto, user_dto_from_model, has_id, normalize_email, is_taken_by, new_user, delete_rows,
}
use django_ninja_rbac_authen.Rbac
use django_ninja_rbac_authen.Rbac.{UserRole, is_link, has_role}
use django_ninja_rbac_authen.World.{Db}
use django_ninja_rbac_authen.Registration.{adelete}

module _ (platform : Platform) where
  -- The address is in use, the link to be made is there, or there is no such role.
  abbrev pub Conflicts : String → ℕ → Db → Type 0
  Conflicts email role_id s =
      (any (is_taken_by platform (normalize_email platform email)) s.users.rows ≡ true)
      ⊎ (any (is_link s.users.next_id role_id) s.rbac.user_roles ≡ true)
      ⊎ (has_role role_id s.rbac.roles ≡ false)

  -- The role was there, the user and the link are there now, and nothing else has changed.
  abbrev pub Registers : ℕ → String → String → ℕ → Db → Result UserDto × Db → Type 0
  Registers joined email password_hash role_id s reply =
      let user =
        new_user platform s.users.next_id joined (normalize_email platform email) password_hash in
      (has_role role_id s.rbac.roles ≡ true)
      × (reply.0 ≡ ok (user_dto_from_model user))
      × (reply.1.users.rows ≡ s.users.rows ++ user ∷ [])
      × (reply.1.rbac.user_roles
          ≡ s.rbac.user_roles ++ record { user_id = user.id; role_id = role_id } ∷ [])
      × (reply.1.rbac.roles ≡ s.rbac.roles)
      × (reply.1.tokens ≡ s.tokens)
      × (reply.1.audit ≡ s.audit)

select-All : {A : Type 0} (p : A → Bool) (xs : List A) → All (λ x. p x ≡ true) (select p xs)
select-All p [] = tt
select-All p (x ∷ xs) = elim (Bool-cases (p x)) [
  | inl t ↦ rw t (t, select-All p xs)
  | inr f ↦ rw f (select-All p xs)
]

-- No row of the user is left.
abbrev pub IsGone : ℕ → Db → Type 0
IsGone user_id s =
    All (λ u. not (has_id user_id u) ≡ true) s.users.rows
    × All (λ l. not (l.user_id == user_id) ≡ true) s.rbac.user_roles
    × All (λ t. not (t.user_id == user_id) ≡ true) s.tokens.rows

-- `adelete` always succeeds, reports whether there was such a user, and leaves neither the user's row
-- nor any role link or refresh token of the user; the audit trail is kept.
pub adelete-IsGone :
    (user_id : ℕ) (s : Db)
    → let reply = adelete user_id s in
      (reply.0 ≡ ok (any (has_id user_id) s.users.rows))
      × IsGone user_id reply.1
      × (reply.1.audit ≡ s.audit)
unfolding adelete delete_rows RefreshTokens.cascade_user Rbac.cascade_user
adelete-IsGone user_id s = (
  refl,
  (
    select-All (λ u. not (has_id user_id u)) s.users.rows,
    select-All (λ l. not (l.user_id == user_id)) s.rbac.user_roles,
    All-update_where (λ t. not (t.user_id == user_id) ≡ true)
        (λ t. not (t.user_id == user_id) ≡ true)
        (RefreshTokens.is_child_of (select (RefreshTokens.is_of_user user_id) s.tokens.rows))
        RefreshTokens.unparented (select (λ t. not (t.user_id == user_id)) s.tokens.rows)
        (λ t h. ground (arith, h)) (select-All (λ t. not (t.user_id == user_id)) s.tokens.rows),
  ),
  refl,
)
