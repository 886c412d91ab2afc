-- ===== src/RefreshTokens/Refinement.antt =====
-- The RefreshToken table as its callers think of it: each family of tokens is a session, which is closed
-- or has one token that can still be used. The rows, their keys and their order are forgotten.
use django_ninja_rbac_authen.Prelude.{
  ℕ, ◌≤◌, ◌<◌, List, [], ◌∷◌, inl, inr, ◌⊎◌, Bool-cases, update_where, opt_str_eq_iff, ◌≡◌, ◌≢◌,
  refl, sym, ap, subst, ◌∙◌, Bool, true, false, ◌&&◌, Option, none, some, String, str_eq, eq_iff,
  eq_refl, arith, ◌==◌, find, any, All-map, All-of_forall,
}
use django_ninja_rbac_authen.Errors.{integrity_error}
use django_ninja_rbac_authen.Effects.{ok, err}
use django_ninja_rbac_authen.RefreshTokens.{
  RefreshToken, TokenTable, Rotation, RefreshRotationResult, Outcome, rotated, missing, expired,
  reused, binding_mismatch, has_hash, is_active, is_mismatch, revoke_row, result_of, new_row,
  replacement_of, insert_token, revoke_where, arotate,
}
use django_ninja_rbac_authen.RefreshTokens.Cases.{
  RotationReply, RotateCase, absent, replayed, outlived, stolen, collides, rotates, consumed,
  rotate_cases,
}
use django_ninja_rbac_authen.RefreshTokens.Valid.{IsValid, revoked_family}
use django_ninja_rbac_authen.RefreshTokens.Families.{
  is_current, session, session-closed, session-revoke_others, session-append_other,
  session-append_new, session-find, same_key,
}
use django_ninja_rbac_authen.RefreshTokens.Outcomes.{family_closed-IsFamilyRevoked}

-- Which token of a family can still be used, by its hash.
abbrev pub Sessions : Type 0
Sessions = String → Option String

abbrev pub sessions_of : TokenTable → Sessions
sessions_of s family = session family s.rows

abbrev pub SameBut : String → Sessions → Sessions → Type 0
SameBut family before after = (g : String) → g ≢ family → after g ≡ before g

-- The row that the presented token has.
abbrev pub IsPresented : Rotation → TokenTable → RefreshToken → Type 0
IsPresented a s t = find (has_hash a.token_hash) s.rows ≡ some t

abbrev pub Unchanged : TokenTable → TokenTable → Type 0
Unchanged s s' = (g : String) → sessions_of s' g ≡ sessions_of s g

-- What a rotation with this outcome does to the sessions, and for which row.
abbrev pub RotatesSessions : Rotation → Outcome → TokenTable → TokenTable → Type 0
RotatesSessions a rotated s s' =
    (t : RefreshToken) × IsPresented a s t
    × (a.rotated_at < t.expires_at)
    × (sessions_of s t.family_id ≡ some a.token_hash)
    × (sessions_of s' t.family_id ≡ some a.replacement_hash)
    × SameBut t.family_id (sessions_of s) (sessions_of s')
RotatesSessions a missing s s' = (find (has_hash a.token_hash) s.rows ≡ none) × Unchanged s s'
RotatesSessions a expired s s' =
    (t : RefreshToken) × IsPresented a s t
    × (t.revoked_at ≡ none)
    × (t.expires_at ≤ a.rotated_at)
    × Unchanged s s'
RotatesSessions a reused s s' =
    (t : RefreshToken) × IsPresented a s t
    × (t.revoked_at ≢ none)
    × (sessions_of s' t.family_id ≡ none)
    × SameBut t.family_id (sessions_of s) (sessions_of s')
RotatesSessions a binding_mismatch s s' =
    (t : RefreshToken) × IsPresented a s t
    × (a.rotated_at < t.expires_at)
    × (sessions_of s t.family_id ≡ some a.token_hash)
    × (t.device_hash ≢ none)
    × (t.device_hash ≢ a.presented_device_hash)
    × (sessions_of s' t.family_id ≡ none)
    × SameBut t.family_id (sessions_of s) (sessions_of s')

family_closed-SameBut :
    (family : String) (at : ℕ) (s : TokenTable)
    → SameBut family
        (sessions_of s)
        (sessions_of (revoke_where (λ r. str_eq r.family_id family) at s).1)
unfolding revoke_where
family_closed-SameBut family at s g other =
    session-revoke_others g (λ r. str_eq r.family_id family && is_active r) at s.rows
      (All-of_forall (λ r. str_eq r.family_id family && is_active r ≡ true → is_current g r ≡ false)
        s.rows (λ r k. ground (arith, k, other, eq_iff r.family_id family, eq_iff r.family_id g)))

family_closed-none :
    (family : String) (at : ℕ) (s : TokenTable)
    → sessions_of (revoke_where (λ r. str_eq r.family_id family) at s).1 family ≡ none
family_closed-none family at s =
    session-closed family (revoke_where (λ r. str_eq r.family_id family) at s).1.rows
      (family_closed-IsFamilyRevoked family at s)

module _ (bind : Bool) (a : Rotation) (s : TokenTable) (t : RefreshToken) (v : IsValid s)
    (f : find (has_hash a.token_hash) s.rows ≡ some t) where
  consumed-SameBut : SameBut t.family_id (sessions_of s) (sessions_of (consumed bind a s t))
  consumed-SameBut g other =
      session-revoke_others g (λ r. r.id == t.id) a.rotated_at s.rows
        (All-map (λ r. (r.id == t.id) ≡ true → r.family_id ≡ t.family_id)
          (λ r. (r.id == t.id) ≡ true → is_current g r ≡ false) s.rows
          (λ r same k. ground (arith, same k, other, eq_iff r.family_id g))
          (same_key a.token_hash s.rows t v.distinct f))

  consumed-none : is_active t ≡ true → sessions_of (consumed bind a s t) t.family_id ≡ none
  consumed-none active =
      session-closed t.family_id (consumed bind a s t).rows
        (revoked_family a.token_hash a.rotated_at s.rows t v.distinct f active)

  pub replaced :
      is_active t ≡ true
      → any (has_hash a.replacement_hash) (consumed bind a s t).rows ≡ false
      → let after = sessions_of (insert_token (replacement_of a t) (consumed bind a s t)).1 in
        (after t.family_id ≡ some a.replacement_hash) × SameBut t.family_id (sessions_of s) after
  unfolding insert_token
  replaced active free =
      let rows = (consumed bind a s t).rows in
      let new : RefreshToken = new_row s.next_id (replacement_of a t) in
      rw free (
        session-append_new t.family_id rows new (consumed-none active)
            (ground (arith, eq_refl t.family_id)),
        λ g other.
            session-append_other g rows new (ground (arith, other, eq_iff t.family_id g))
            ∙ consumed-SameBut g other,
      )

-- Revoking rows leaves their hashes as they were.
any-revoked :
    (q p : RefreshToken → Bool) (at : ℕ) (rows : List RefreshToken)
    → ((r : RefreshToken) → q (revoke_row at r) ≡ q r)
    → any q (update_where p (revoke_row at) rows) ≡ any q rows
any-revoked q p at [] h = refl
any-revoked q p at (r ∷ rows) h = elim (Bool-cases (p r)) [
  | inl hit ↦ rw (hit, h r, any-revoked q p at rows h) refl
  | inr miss ↦ rw (miss, any-revoked q p at rows h) refl
]

same_result : (r r' : RefreshRotationResult) → ok r ≡ ok r' → r.outcome ≡ r'.outcome
same_result r r' e = ground (arith, e)

is_mismatch-differs :
    (bind : Bool) (stored presented : Option String)
    → is_mismatch bind stored presented ≡ true
    → (stored ≢ none) × (stored ≢ presented)
is_mismatch-differs bind stored presented h =
    (λ e. ground (arith, h, e), λ e. ground (arith, h, e, opt_str_eq_iff stored presented))

-- The table behind a rotation, by the way in which it ends: the effect of its outcome, or none at all
-- where the hash of the replacement is taken.
pub rotates_sessions :
    (bind : Bool) (a : Rotation) (s : TokenTable) (reply : RotationReply)
    → IsValid s
    → RotateCase bind a s reply
    → ((r : RefreshRotationResult) × (reply.0 ≡ ok r) × RotatesSessions a r.outcome s reply.1)
      ⊎ ((any (has_hash a.replacement_hash) s.rows ≡ true) × (reply ≡ (err integrity_error, s)))
rotates_sessions bind a s reply v (absent f e) =
    inl (result_of missing none none, rw e refl, rw e (f, λ g. refl))
rotates_sessions bind a s reply v (replayed t f spent e) = inl (
  result_of reused (some t) none,
  rw e refl,
  rw e (
    t,
    f,
    (λ x. ground (arith, spent, x)),
    family_closed-none t.family_id a.rotated_at s,
    family_closed-SameBut t.family_id a.rotated_at s,
  ),
)
rotates_sessions bind a s reply v (outlived t f active late e) = inl (
  result_of expired none none,
  rw e refl,
  rw e (t, f, ground (arith, active), ground (arith, late), λ g. refl),
)
rotates_sessions bind a s reply v (stolen t f active live elsewhere e) = inl (
  result_of binding_mismatch (some t) none,
  rw e refl,
  rw e (
    t,
    f,
    ground (arith, live),
    session-find a.token_hash s.rows t v.distinct f active,
    (is_mismatch-differs bind t.device_hash a.presented_device_hash elsewhere).0,
    (is_mismatch-differs bind t.device_hash a.presented_device_hash elsewhere).1,
    family_closed-none t.family_id a.rotated_at s,
    family_closed-SameBut t.family_id a.rotated_at s,
  ),
)
rotates_sessions bind a s reply v (collides t f taken e) = inr (
  sym (
        any-revoked (has_hash a.replacement_hash) (λ r. r.id == t.id) a.rotated_at s.rows
          (λ r. refl))
      ∙ taken,
  e,
)
rotates_sessions bind a s reply v (rotates t f active live _ free e) =
    let (renewed, others) = replaced bind a s t v f active free in
    inl (
      result_of rotated (some (new_row s.next_id (replacement_of a t))) t.issued_ip,
      rw e refl,
      rw e (
        t,
        f,
        ground (arith, live),
        session-find a.token_hash s.rows t v.distinct f active,
        renewed,
        others,
      ),
    )

-- In a valid table a rotation is, for the sessions, what its outcome says: an exchange replaces the
-- token of the session of the presented row's family by the new one, and the row is not expired; a
-- token is missing only if the table has no row for it, and expired only if its row is active and its
-- time is over, and then no session changes; a reuse means that the presented row is revoked, a
-- mismatch that it is the current token of its family and bound to another device, and both close the
-- session of the presented row's family. All other sessions go on.
pub rotate_refines :
    (bind : Bool) (a : Rotation) (s : TokenTable) (r : RefreshRotationResult)
    → IsValid s
    → (arotate bind a s).0 ≡ ok r
    → RotatesSessions a r.outcome s (arotate bind a s).1
rotate_refines bind a s r v q = elim (rotates_sessions bind a s _ v (rotate_cases bind a s)) [
  | inl (r', e, h) ↦
      subst (λ o. RotatesSessions a o s (arotate bind a s).1) (same_result r' r (sym e ∙ q)) h
  | inr (_, e) ↦ absurd (ground (arith, q, ap (λ (x : RotationReply). x.0) e))
]
