-- ===== src/RefreshTokens/Cases.antt =====
-- The ways in which `arotate` can end, each with what led to it, what it returns and what it writes.
use django_ninja_rbac_authen.Prelude.{
  ◌≡◌, refl, inl, inr, Bool, true, false, none, some, leb, str_eq, ◌==◌, find, any, update_where,
  Bool-cases, Option-cases,
}
use django_ninja_rbac_authen.Errors.{integrity_error}
use django_ninja_rbac_authen.Effects.{Result, ok, err}
use django_ninja_rbac_authen.RefreshTokens.{
  RefreshToken, TokenTable, Rotation, RefreshRotationResult, rotated, missing, expired, reused,
  binding_mismatch, has_hash, is_active, is_mismatch, revoke_row, result_of, new_row,
  replacement_of, insert_token, revoke_where, arotate,
}

abbrev pub RotationReply : Type 0
RotationReply = Result RefreshRotationResult × TokenTable

module _ (bind_device : Bool) (a : Rotation) (s : TokenTable) where
  abbrev pub family_closed : RefreshToken → TokenTable
  family_closed t = (revoke_where (λ r. str_eq r.family_id t.family_id) a.rotated_at s).1

  -- The table once the presented token is consumed.
  abbrev pub consumed : RefreshToken → TokenTable
  consumed t = record s { rows = update_where (λ r. r.id == t.id) (revoke_row a.rotated_at) s.rows }

  pub data RotateCase (r : RotationReply) : Type 0 where
    absent :
        find (has_hash a.token_hash) s.rows ≡ none
        → r ≡ (ok (result_of missing none none), s)
        → RotateCase r
    replayed :
        (t : RefreshToken)
        → find (has_hash a.token_hash) s.rows ≡ some t
        → is_active t ≡ false
        → r ≡ (ok (result_of reused (some t) none), family_closed t)
        → RotateCase r
    outlived :
        (t : RefreshToken)
        → find (has_hash a.token_hash) s.rows ≡ some t
        → is_active t ≡ true
        → leb t.expires_at a.rotated_at ≡ true
        → r ≡ (ok (result_of expired none none), s)
        → RotateCase r
    stolen :
        (t : RefreshToken)
        → find (has_hash a.token_hash) s.rows ≡ some t
        → is_active t ≡ true
        → leb t.expires_at a.rotated_at ≡ false
        → is_mismatch bind_device t.device_hash a.presented_device_hash ≡ true
        → r ≡ (ok (result_of binding_mismatch (some t) none), family_closed t)
        → RotateCase r
    collides :
        (t : RefreshToken)
        → find (has_hash a.token_hash) s.rows ≡ some t
        → any (has_hash a.replacement_hash) (consumed t).rows ≡ true
        → r ≡ (err integrity_error, s)
        → RotateCase r
    rotates :
        (t : RefreshToken)
        → find (has_hash a.token_hash) s.rows ≡ some t
        → is_active t ≡ true
        → leb t.expires_at a.rotated_at ≡ false
        → is_mismatch bind_device t.device_hash a.presented_device_hash ≡ false
        → any (has_hash a.replacement_hash) (consumed t).rows ≡ false
        → r ≡ (
          ok (result_of rotated (some (new_row s.next_id (replacement_of a t))) t.issued_ip),
          (insert_token (replacement_of a t) (consumed t)).1,
        )
        → RotateCase r

  rotate_live :
      (t : RefreshToken)
      → find (has_hash a.token_hash) s.rows ≡ some t
      → is_active t ≡ true
      → leb t.expires_at a.rotated_at ≡ false
      → is_mismatch bind_device t.device_hash a.presented_device_hash ≡ false
      → RotateCase (arotate bind_device a s)
  unfolding arotate
  rotate_live t f active live same =
      elim (Bool-cases (any (has_hash a.replacement_hash) (consumed t).rows)) [
        | inl taken ↦ collides t f taken (rw (f, active, live, same, taken) refl)
        | inr free ↦ rotates t f active live same free (rw (f, active, live, same, free) refl)
      ]

  pub rotate_cases : RotateCase (arotate bind_device a s)
  unfolding arotate
  rotate_cases = elim (Option-cases (find (has_hash a.token_hash) s.rows)) [
    | inl f ↦ absent f (rw f refl)
    | inr (t, f) ↦ elim (Bool-cases (is_active t)) [
      | inr spent ↦ replayed t f spent (rw (f, spent) refl)
      | inl active ↦ elim (Bool-cases (leb t.expires_at a.rotated_at)) [
        | inl late ↦ outlived t f active late (rw (f, active, late) refl)
        | inr live ↦
            elim (Bool-cases (is_mismatch bind_device t.device_hash a.presented_device_hash)) [
              | inl other ↦ stolen t f active live other (rw (f, active, live, other) refl)
              | inr same ↦ rotate_live t f active live same
            ]
      ]
    ]
  ]
