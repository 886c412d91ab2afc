-- ===== src/RefreshTokens/Total.antt =====
-- When `arotate` must succeed, and what it leaves alone when it does not.
use django_ninja_rbac_authen.Prelude.{
  ◌<◌, ◌≤◌, ◌≡◌, ◌≢◌, refl, ◌⊎◌, Bool, true, false, none, some, String, arith, leb, find, any, All,
  All-update_where, opt_str_eq_iff, ◌==◌, any-none,
}
use django_ninja_rbac_authen.Errors.{Error, integrity_error}
use django_ninja_rbac_authen.Effects.{ok, err}
use django_ninja_rbac_authen.RefreshTokens.{
  RefreshToken, TokenTable, Rotation, RefreshRotationResult, rotated, missing, expired, reused,
  binding_mismatch, has_hash, is_active, is_mismatch, revoke_row, result_of, new_row,
  replacement_of, arotate,
}
use django_ninja_rbac_authen.RefreshTokens.Cases.{
  RotationReply, RotateCase, absent, replayed, outlived, stolen, collides, rotates, consumed,
  rotate_cases,
}
use django_ninja_rbac_authen.RefreshTokens.Outcomes.{IsExchangeable}

-- No row has this hash.
abbrev pub IsUnused : String → TokenTable → Type 0
IsUnused h s = All (λ r. has_hash h r ≡ false) s.rows

unused-consumed :
    (bind : Bool) (a : Rotation) (s : TokenTable) (t : RefreshToken)
    → IsUnused a.replacement_hash s
    → any (has_hash a.replacement_hash) (consumed bind a s t).rows ≡ false
unused-consumed bind a s t h = any-none (has_hash a.replacement_hash) (consumed bind a s t).rows (
    All-update_where (λ r. has_hash a.replacement_hash r ≡ false)
      (λ r. has_hash a.replacement_hash r ≡ false) (λ r. r.id == t.id) (revoke_row a.rotated_at)
      s.rows (λ r k. ground arith) h)

not_mismatch :
    (bind : Bool) (a : Rotation) (t : RefreshToken)
    → IsExchangeable bind a t
    → is_mismatch bind t.device_hash a.presented_device_hash ≡ false
not_mismatch false a t x = refl
not_mismatch true a t x =
    ground (arith, x.2 refl, opt_str_eq_iff t.device_hash a.presented_device_hash)

succeeds_by_case :
    (bind : Bool) (a : Rotation) (s : TokenTable) (t : RefreshToken) (reply : RotationReply)
    → find (has_hash a.token_hash) s.rows ≡ some t
    → IsExchangeable bind a t
    → IsUnused a.replacement_hash s
    → RotateCase bind a s reply
    → (r : RefreshRotationResult) × (reply.0 ≡ ok r) × (r.outcome ≡ rotated)
succeeds_by_case bind a s t reply f x u (absent g e) = absurd (cc)
succeeds_by_case bind a s t reply f x u (replayed t' g spent e) = absurd (ground arith)
succeeds_by_case bind a s t reply f x u (outlived t' g _ late e) = absurd (ground arith)
succeeds_by_case bind a s t reply f x u (stolen t' g _ _ other e) =
    absurd (ground (arith, not_mismatch bind a t x))
succeeds_by_case bind a s t reply f x u (collides t' g taken e) =
    absurd (ground (arith, unused-consumed bind a s t' u))
succeeds_by_case bind a s t reply f x u (rotates t' g _ _ _ _ e) = (
  result_of rotated (some (new_row s.next_id (replacement_of a t'))) t'.issued_ip,
  rw e refl,
  refl,
)

-- An exchangeable token is exchanged, if the replacement hash is not in the table yet.
pub rotated_if :
    (bind : Bool) (a : Rotation) (s : TokenTable) (t : RefreshToken)
    → find (has_hash a.token_hash) s.rows ≡ some t
    → IsExchangeable bind a t
    → IsUnused a.replacement_hash s
    → (r : RefreshRotationResult) × ((arotate bind a s).0 ≡ ok r) × (r.outcome ≡ rotated)
rotated_if bind a s t f x u = succeeds_by_case bind a s t _ f x u (rotate_cases bind a s)

-- What holds of a call that is refused without a sign of theft.
abbrev pub LeavesAlone : Rotation → TokenTable → RotationReply → Type 0
LeavesAlone a s reply =
    ((e : Error) → reply.0 ≡ err e → (e ≡ integrity_error) × (reply.1 ≡ s))
    × ((r : RefreshRotationResult)
        → reply.0 ≡ ok r
        → (r.outcome ≡ missing) ⊎ (r.outcome ≡ expired)
        → (r.refresh_token ≡ none) × (reply.1 ≡ s))

LeavesAlone-by_case :
    (bind : Bool) (a : Rotation) (s : TokenTable) (reply : RotationReply)
    → RotateCase bind a s reply
    → LeavesAlone a s reply
LeavesAlone-by_case bind a s reply (absent f q) = (λ e h. ground arith, λ r h o. ground arith)
LeavesAlone-by_case bind a s reply (replayed t f p q) = (λ e h. ground arith, λ r h o. ground arith)
LeavesAlone-by_case bind a s reply (outlived t f p l q) =
    (λ e h. ground arith, λ r h o. ground arith)
LeavesAlone-by_case bind a s reply (stolen t f p l m q) =
    (λ e h. ground arith, λ r h o. ground arith)
LeavesAlone-by_case bind a s reply (collides t f k q) = (λ e h. ground arith, λ r h o. ground arith)
LeavesAlone-by_case bind a s reply (rotates t f p l m k q) =
    (λ e h. ground arith, λ r h o. ground arith)

-- A rotation raises nothing but a uniqueness violation of the replacement's hash, and then the table is
-- what it was: the revocation of the presented token is rolled back.
pub arotate_error :
    (bind : Bool) (a : Rotation) (s : TokenTable) (e : Error)
    → (arotate bind a s).0 ≡ err e
    → (e ≡ integrity_error) × ((arotate bind a s).1 ≡ s)
arotate_error bind a s e h = (LeavesAlone-by_case bind a s _ (rotate_cases bind a s)).0 e h

-- The row was presented from another device than the one it is bound to.
abbrev pub IsElsewhere : Bool → Rotation → RefreshToken → Type 0
IsElsewhere bind a t =
    (t.revoked_at ≡ none)
    × (a.rotated_at < t.expires_at)
    × (bind ≡ true)
    × (t.device_hash ≢ none)
    × (t.device_hash ≢ a.presented_device_hash)

mismatched :
    (bind : Bool) (a : Rotation) (t : RefreshToken)
    → IsElsewhere bind a t
    → is_mismatch bind t.device_hash a.presented_device_hash ≡ true
mismatched false a t (_, _, b, _, _) = absurd (ground arith)
mismatched true a t (_, _, _, bound, other) =
    ground (arith, bound, other, opt_str_eq_iff t.device_hash a.presented_device_hash)

-- A revoked token is reported as reused, and a live one from another device as a mismatch.
pub theft_if :
    (bind : Bool) (a : Rotation) (s : TokenTable) (t : RefreshToken)
    → find (has_hash a.token_hash) s.rows ≡ some t
    → (t.revoked_at ≢ none → (arotate bind a s).0 ≡ ok (result_of reused (some t) none))
      × (IsElsewhere bind a t
          → (arotate bind a s).0 ≡ ok (result_of binding_mismatch (some t) none))
unfolding arotate
theft_if bind a s t f = (
  λ spent. let inactive : is_active t ≡ false = ground (arith, spent) in rw (f, inactive) refl,
  λ x.
      let active : is_active t ≡ true = ground (arith, x.0) in
      let live : leb t.expires_at a.rotated_at ≡ false = ground (arith, x.1) in
      rw (f, active, live, mismatched bind a t x) refl,
)

-- The table has no row with the presented hash, or a live row that has expired.
abbrev pub IsAbsent : Rotation → TokenTable → Type 0
IsAbsent a s = find (has_hash a.token_hash) s.rows ≡ none

abbrev pub IsOutlived : Rotation → TokenTable → Type 0
IsOutlived a s =
    (t : RefreshToken) × (find (has_hash a.token_hash) s.rows ≡ some t)
    × (t.revoked_at ≡ none)
    × (t.expires_at ≤ a.rotated_at)

pub refused_if :
    (bind : Bool) (a : Rotation) (s : TokenTable)
    → (IsAbsent a s → arotate bind a s ≡ (ok (result_of missing none none), s))
      × (IsOutlived a s → arotate bind a s ≡ (ok (result_of expired none none), s))
unfolding arotate
refused_if bind a s = (
  λ f. rw f refl,
  λ (t, f, r, late).
      let active : is_active t ≡ true = ground (arith, r) in
      let over : leb t.expires_at a.rotated_at ≡ true = ground (arith, late) in
      rw (f, active, over) refl,
)
