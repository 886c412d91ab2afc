-- ===== src/AdminService/Deletion.antt =====
-- apps/accounts/services/admin.py: what `delete_user` means for the tokens that the user still has.
use django_ninja_rbac_authen.Prelude.{
  ℕ, ◌≡◌, refl, sym, ap, ◌∙◌, inl, inr, Bool, true, false, not, none, some, List, [], ◌∷◌, String,
  arith, eq_iff, find, find_step, select, any, All, All-map, All-select, All-update_where, Pairwise,
  Bool-cases,
}
use django_ninja_rbac_authen.Errors.{raised, invalid_token}
use django_ninja_rbac_authen.Effects.{ok, err}
use django_ninja_rbac_authen.Platform.{Deployment}
use django_ninja_rbac_authen.Users.{has_id, delete_rows}
use django_ninja_rbac_authen.Registration.{adelete}
use django_ninja_rbac_authen.AuditLogs.{AuditContext, user_delete}
use django_ninja_rbac_authen.AuditService.Effect.{record_event-ok, logged, logged-OnlyLogs}
use django_ninja_rbac_authen.World.{World, Db}
use django_ninja_rbac_authen.AuthService.{hash_refresh_token}
use django_ninja_rbac_authen.Sessions.{refresh}
use django_ninja_rbac_authen.Sessions.Refresh.{refresh_invalid}
use django_ninja_rbac_authen.AdminService.{user_event, delete_user}
use django_ninja_rbac_authen.RefreshTokens.{
  RefreshToken, TokenTable, has_hash, is_of_user, is_child_of, unparented, cascade_user,
}
use django_ninja_rbac_authen.RefreshTokens.Valid.{IsValid, AreCompatible}

-- A row with the hash of another row is no other row.
others_differ :
    (h : String) (t : RefreshToken) (rows : List RefreshToken)
    → has_hash h t ≡ true
    → All (AreCompatible t) rows
    → All (λ r. has_hash h r ≡ false) rows
others_differ h t rows e far =
    All-map _ _ rows
      (λ r c. elim (Bool-cases (has_hash h r)) [
        | inl hit ↦ absurd (c.1 ((eq_iff t.token_hash h).0 e ∙ sym ((eq_iff r.token_hash h).0 hit)))
        | inr miss ↦ miss
      ])
      far

-- Without the rows of its user the hash of a token is not in the table.
gone_with_user :
    (h : String) (u : ℕ) (t : RefreshToken) (rows : List RefreshToken)
    → Pairwise AreCompatible rows
    → find (has_hash h) rows ≡ some t
    → t.user_id ≡ u
    → All (λ r. has_hash h r ≡ false) (select (λ r. not (is_of_user u r)) rows)
gone_with_user h u t [] far f e = tt
gone_with_user h u t (x ∷ rows) far f e =
    elim (find_step (has_hash h) x t (find (has_hash h) rows) f) [
      | inl (hit, is_t) ↦
          let mine : is_of_user u x ≡ true =
            ground (arith, ap (λ (r : RefreshToken). r.user_id) is_t) in
          rw mine (All-select _ (λ r. not (is_of_user u r)) rows (others_differ h x rows hit far.0))
      | inr (miss, f') ↦ elim (Bool-cases (is_of_user u x)) [
        | inl mine ↦ rw mine (gone_with_user h u t rows far.1 f' e)
        | inr other ↦ rw other (miss, gone_with_user h u t rows far.1 f' e)
      ]
    ]

find-of_none :
    {A : Type 0} (p : A → Bool) (xs : List A) → All (λ x. p x ≡ false) xs → find p xs ≡ none
find-of_none p [] h = refl
find-of_none p (x ∷ xs) h = rw h.0 (find-of_none p xs h.1)

cascade-gone :
    (h : String) (u : ℕ) (t : RefreshToken) (s : TokenTable)
    → IsValid s
    → find (has_hash h) s.rows ≡ some t
    → t.user_id ≡ u
    → find (has_hash h) (cascade_user u s).rows ≡ none
unfolding cascade_user
cascade-gone h u t s v f e =
    let kept = select (λ r. not (is_of_user u r)) s.rows in
    find-of_none (has_hash h) (cascade_user u s).rows (
      All-update_where (λ r. has_hash h r ≡ false) (λ r. has_hash h r ≡ false)
        (is_child_of (select (is_of_user u) s.rows)) unparented kept (λ r k. ground arith)
        (gone_with_user h u t s.rows v.distinct f e))

adelete-gone :
    (h : String) (u : ℕ) (t : RefreshToken) (s : Db)
    → IsValid s.tokens
    → find (has_hash h) s.tokens.rows ≡ some t
    → t.user_id ≡ u
    → find (has_hash h) (adelete u s).1.tokens.rows ≡ none
unfolding adelete
adelete-gone h u t s v f e = cascade-gone h u t s.tokens v f e

module _ (d : Deployment) (user_id : ℕ) (context : AuditContext) (w : World d) where
  abbrev deleted_state : World d
  deleted_state = record w { db = (adelete user_id w.db).1 }

  delete_user-logged :
      any (has_id user_id) w.db.users.rows ≡ true
      → delete_user d user_id context w
        ≡ (ok tt, logged d (user_event user_delete user_id none) context deleted_state)
  unfolding delete_user delete_rows
  delete_user-logged h = rw (h, record_event-ok) refl

  -- Deleting a user that exists succeeds. In the state that the deletion leaves, a refresh with a token
  -- that the user had in a valid table is refused as invalid, whichever client presents it. Redis is left
  -- as it was, so nothing that the blocklist says of the user's access tokens changes.
  pub delete_user-ends :
      (raw : String) (client : AuditContext) (t : RefreshToken)
      → any (has_id user_id) w.db.users.rows ≡ true
      → IsValid w.db.tokens
      → find (has_hash (hash_refresh_token d raw)) w.db.tokens.rows ≡ some t
      → t.user_id ≡ user_id
      → let after = delete_user d user_id context w in
        (after.0 ≡ ok tt)
        × ((refresh d raw client after.1).0 ≡ err (raised invalid_token))
        × (after.1.redis ≡ w.redis)
  delete_user-ends raw client t known v f e =
      let kept = logged-OnlyLogs d (user_event user_delete user_id none) context deleted_state in
      rw (delete_user-logged known) (
        refl,
        (refresh_invalid d raw client
            (logged d (user_event user_delete user_id none) context deleted_state)
            (inl
              (rw kept.tokens (adelete-gone (hash_refresh_token d raw) user_id t w.db v f e)))).0,
        kept.redis,
      )
