-- ===== src/RefreshTokens/Outcomes.antt =====
-- What `arotate` promises to its caller: when a token is exchanged, what the successor is, and what
-- happens to the family on a detected theft.
use django_ninja_rbac_authen.Prelude.{
  ℕ, ◌<◌, ◌≡◌, ◌≢◌, refl, ◌⊎◌, Bool, true, false, not, ◌&&◌, none, some, List, [], ◌∷◌, String,
  str_eq, eq_iff, eq_refl, arith, leb, py_or, find, any, select, update_where, find-append_new,
  any-false, find_test, All-update_where, All-of_forall, opt_str_eq_iff,
}
use django_ninja_rbac_authen.Effects.{ok}
use django_ninja_rbac_authen.RefreshTokens.{
  RefreshToken, RefreshTokenDto, TokenTable, Rotation, RefreshRotationResult, rotated, reused,
  binding_mismatch, has_hash, is_active, is_mismatch, revoke_row, new_row, refresh_token_dto,
  replacement_of, insert_token, revoke_where, arotate,
}
use django_ninja_rbac_authen.RefreshTokens.Cases.{
  RotationReply, RotateCase, absent, replayed, outlived, stolen, collides, rotates, consumed,
  rotate_cases,
}
use django_ninja_rbac_authen.RefreshTokens.Valid.{IsRevoked, IsFamilyRevoked}

abbrev in_family : String → RefreshToken → Bool
in_family family r = str_eq r.family_id family

abbrev others : String → List RefreshToken → List RefreshToken
others family = select (λ r. not (in_family family r))

pub family_closed-IsFamilyRevoked :
    (family : String) (at : ℕ) (s : TokenTable)
    → IsFamilyRevoked family (revoke_where (in_family family) at s).1.rows
unfolding revoke_where
family_closed-IsFamilyRevoked family at s =
    All-update_where (λ r. Unit {0}) (λ r. r.family_id ≡ family → IsRevoked r)
      (λ r. in_family family r && is_active r) (revoke_row at) s.rows
      (λ r _. ground (arith, eq_iff r.family_id family))
      (All-of_forall (λ r. Unit {0}) s.rows (λ r. tt))

others-update :
    (family : String) (at : ℕ) (rows : List RefreshToken)
    → others family (update_where (λ r. in_family family r && is_active r) (revoke_row at) rows)
      ≡ others family rows
others-update family at [] = refl
others-update family at (r ∷ rows) = ground (arith, others-update family at rows)

others-family_closed :
    (family : String) (at : ℕ) (s : TokenTable)
    → others family (revoke_where (in_family family) at s).1.rows ≡ others family s.rows
unfolding revoke_where
others-family_closed family at s = others-update family at s.rows

-- What a detected theft leaves behind.
abbrev pub FamilyClosed : Rotation → TokenTable → RefreshRotationResult → TokenTable → Type 0
FamilyClosed a s r s' =
    (d : RefreshTokenDto) × (r.refresh_token ≡ some d)
    × (d.token_hash ≡ a.token_hash)
    × IsFamilyRevoked d.family_id s'.rows
    × (others d.family_id s'.rows ≡ others d.family_id s.rows)

closes :
    (a : Rotation) (s : TokenTable) (t : RefreshToken) (at : ℕ) (r : RefreshRotationResult)
    (s' : TokenTable)
    → find (has_hash a.token_hash) s.rows ≡ some t
    → r.refresh_token ≡ some (refresh_token_dto t)
    → s' ≡ (revoke_where (in_family t.family_id) at s).1
    → FamilyClosed a s r s'
closes a s t at r s' f p e = (
  refresh_token_dto t,
  p,
  (eq_iff t.token_hash a.token_hash).0 (find_test (has_hash a.token_hash) s.rows t f),
  rw e (family_closed-IsFamilyRevoked t.family_id at s),
  rw e (others-family_closed t.family_id at s),
)

theft_by_case :
    (bind : Bool) (a : Rotation) (s : TokenTable) (reply : RotationReply)
    (r : RefreshRotationResult)
    → RotateCase bind a s reply
    → reply.0 ≡ ok r
    → (r.outcome ≡ reused) ⊎ (r.outcome ≡ binding_mismatch)
    → FamilyClosed a s r reply.1
theft_by_case bind a s reply r (absent _ e) q o = absurd (ground arith)
theft_by_case bind a s reply r (replayed t f _ e) q o =
    closes a s t a.rotated_at r reply.1 f (ground arith) (rw e refl)
theft_by_case bind a s reply r (outlived _ _ _ _ e) q o = absurd (ground arith)
theft_by_case bind a s reply r (stolen t f _ _ _ e) q o =
    closes a s t a.rotated_at r reply.1 f (ground arith) (rw e refl)
theft_by_case bind a s reply r (collides _ _ _ e) q o = absurd (ground arith)
theft_by_case bind a s reply r (rotates _ _ _ _ _ _ e) q o = absurd (ground arith)

-- On reuse or a device mismatch the result carries the presented token, every token of its family is
-- revoked afterwards, and the tokens of all other families are what they were.
pub theft_closes_family :
    (bind : Bool) (a : Rotation) (s : TokenTable) (r : RefreshRotationResult)
    → (arotate bind a s).0 ≡ ok r
    → (r.outcome ≡ reused) ⊎ (r.outcome ≡ binding_mismatch)
    → FamilyClosed a s r (arotate bind a s).1
theft_closes_family bind a s r q o = theft_by_case bind a s _ r (rotate_cases bind a s) q o

-- The row may be exchanged: active, not yet expired, and on its own device where that is enforced.
abbrev pub IsExchangeable : Bool → Rotation → RefreshToken → Type 0
IsExchangeable bind a t =
    (t.revoked_at ≡ none)
    × (a.rotated_at < t.expires_at)
    × (bind ≡ true → t.device_hash ≢ none → t.device_hash ≡ a.presented_device_hash)

abbrev pub Succeeds :
    Rotation → TokenTable → RefreshToken → RefreshRotationResult → TokenTable → Type 0
Succeeds a s t r s' =
    (n : RefreshToken) × (r.outcome ≡ rotated)
    × (r.refresh_token ≡ some (refresh_token_dto n))
    × (r.previous_issued_ip ≡ t.issued_ip)
    × (find (has_hash a.replacement_hash) s'.rows ≡ some n)
    × (n.revoked_at ≡ none)
    × (n.user_id ≡ t.user_id)
    × (n.family_id ≡ t.family_id)
    × (n.parent_id ≡ some t.id)
    × (n.expires_at ≡ a.replacement_expires_at)
    × (n.device_hash ≡ py_or t.device_hash a.presented_device_hash)
    × (n.issued_ip ≡ a.presented_ip)

IsExchangeable-of :
    (bind : Bool) (a : Rotation) (t : RefreshToken)
    → is_active t ≡ true
    → leb t.expires_at a.rotated_at ≡ false
    → is_mismatch bind t.device_hash a.presented_device_hash ≡ false
    → IsExchangeable bind a t
IsExchangeable-of bind a t active live same = (
  ground arith,
  ground arith,
  λ b d. ground (arith, opt_str_eq_iff t.device_hash a.presented_device_hash),
)

successor_found :
    (bind : Bool) (a : Rotation) (s : TokenTable) (t : RefreshToken)
    → any (has_hash a.replacement_hash) (consumed bind a s t).rows ≡ false
    → find
        (has_hash a.replacement_hash)
        (insert_token (replacement_of a t) (consumed bind a s t)).1.rows
      ≡ some (new_row s.next_id (replacement_of a t))
unfolding insert_token
successor_found bind a s t free = rw free (
    find-append_new (has_hash a.replacement_hash) (consumed bind a s t).rows _
      (any-false (has_hash a.replacement_hash) (consumed bind a s t).rows free)
      (eq_refl a.replacement_hash))

rotated_by_case :
    (bind : Bool) (a : Rotation) (s : TokenTable) (reply : RotationReply)
    (r : RefreshRotationResult)
    → RotateCase bind a s reply
    → reply.0 ≡ ok r
    → r.outcome ≡ rotated
    → (t : RefreshToken) × (find (has_hash a.token_hash) s.rows ≡ some t)
      × IsExchangeable bind a t
      × Succeeds a s t r reply.1
rotated_by_case bind a s reply r (absent _ e) q o = absurd (ground arith)
rotated_by_case bind a s reply r (replayed t _ _ e) q o = absurd (ground arith)
rotated_by_case bind a s reply r (outlived _ _ _ _ e) q o = absurd (ground arith)
rotated_by_case bind a s reply r (stolen t _ _ _ _ e) q o = absurd (ground arith)
rotated_by_case bind a s reply r (collides _ _ _ e) q o = absurd (ground arith)
rotated_by_case bind a s reply r (rotates t f active live same free e) q o = (
  t,
  f,
  IsExchangeable-of bind a t active live same,
  (
    new_row s.next_id (replacement_of a t),
    o,
    ground arith,
    ground arith,
    rw e (successor_found bind a s t free),
    refl,
    refl,
    refl,
    refl,
    refl,
    refl,
    refl,
  ),
)

-- Only a token that is active, not yet expired and, where the binding is enforced and the token is
-- bound, presented by its own device is exchanged. The result is the successor, which is found under
-- the replacement hash, is active, has the presented token as its parent, keeps its user, its family
-- and, where it has one, its device, and has the expiry and the address of the rotation.
pub rotated_only_if :
    (bind : Bool) (a : Rotation) (s : TokenTable) (r : RefreshRotationResult)
    → (arotate bind a s).0 ≡ ok r
    → r.outcome ≡ rotated
    → (t : RefreshToken) × (find (has_hash a.token_hash) s.rows ≡ some t)
      × IsExchangeable bind a t
      × Succeeds a s t r (arotate bind a s).1
rotated_only_if bind a s r q o = rotated_by_case bind a s _ r (rotate_cases bind a s) q o
