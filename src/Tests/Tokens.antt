-- ===== src/Tests/Tokens.antt =====
-- The theorems on the refresh token table at the concrete tables.
use django_ninja_rbac_authen.Prelude.{
  ◌≡◌, ◌≢◌, refl, true, false, none, some, [], ◌∷◌, arith, find, String, str_eq, eq_iff, ◌==◌, ◌&&◌,
}
use django_ninja_rbac_authen.RefreshTokens.{
  RefreshToken, Rotation, RefreshRotationResult, rotated, reused, has_hash, result_of, new_row,
  replacement_of, revoke_row, arotate, arevoke_user, is_active,
}
use django_ninja_rbac_authen.RefreshTokens.Valid.{IsValid, AreCompatible}
use django_ninja_rbac_authen.RefreshTokens.History.{revoke_user, rotate, apply, run, run-IsValid}
use django_ninja_rbac_authen.RefreshTokens.Replay.{no_replay}
use django_ninja_rbac_authen.RefreshTokens.Outcomes.{IsExchangeable, Succeeds, rotated_only_if}
use django_ninja_rbac_authen.Tests.Installation.{
  spent_token, live_token, late_token, bobs_token, demo_tokens,
}

abbrev pub exchange : Rotation
exchange = record {
  token_hash = "sha256:live";
  replacement_hash = "sha256:next";
  replacement_expires_at = 1900000000000000;
  rotated_at = 1700000000000000;
  presented_device_hash = some "sha256:browser";
  presented_ip = some "10.0.0.2";
}

-- The replacement has the hash of another row.
abbrev collision : Rotation
collision = record exchange { replacement_hash = "sha256:late" }

abbrev replay : Rotation
replay = record exchange { token_hash = "sha256:spent" }

abbrev pub exchanged : RefreshRotationResult
exchanged =
    result_of rotated (some (new_row 5 (replacement_of exchange live_token))) (some "10.0.0.1")

abbrev caught : RefreshRotationResult
caught = result_of reused (some (revoke_row 1700000000000000 live_token)) none

abbrev caught_spent : RefreshRotationResult
caught_spent = result_of reused (some spent_token) none

pub differs : (a b : String) → str_eq a b ≡ false → a ≢ b
differs a b h e = ground (arith, h, (eq_iff a b).1 e)

compatible :
    (r t : RefreshToken)
    → (r.id == t.id) ≡ false
    → str_eq r.token_hash t.token_hash ≡ false
    → (is_active r && is_active t && str_eq r.family_id t.family_id) ≡ false
    → AreCompatible r t
compatible r t i h f = (
  ground arith,
  differs r.token_hash t.token_hash h,
  λ a b e. ground (arith, (eq_iff r.family_id t.family_id).1 e),
)

pub demo_tokens-IsValid : IsValid demo_tokens
demo_tokens-IsValid = record {
  below = (ground arith, (ground arith, (ground arith, (ground arith, tt))));
  distinct = (
    (
      compatible spent_token live_token refl refl refl,
      (
        compatible spent_token late_token refl refl refl,
        (compatible spent_token bobs_token refl refl refl, tt),
      ),
    ),
    (
      (
        compatible live_token late_token refl refl refl,
        (compatible live_token bobs_token refl refl refl, tt),
      ),
      ((compatible late_token bobs_token refl refl refl, tt), (tt, tt)),
    ),
  );
}

no_replay_example : caught.outcome ≢ rotated
unfolding arotate run apply arevoke_user
no_replay_example =
    no_replay true exchange exchange demo_tokens exchanged caught
      (revoke_user 2 1700000000000001 ∷ []) demo_tokens-IsValid refl refl refl (tt, tt) refl

run-IsValid_example :
    IsValid (run true (rotate exchange ∷ revoke_user 1 1700000000000001 ∷ []) demo_tokens)
run-IsValid_example =
    run-IsValid true (rotate exchange ∷ revoke_user 1 1700000000000001 ∷ []) demo_tokens
      demo_tokens-IsValid (tt, (tt, tt))

rotated_only_if_example :
    (t : RefreshToken) × (find (has_hash "sha256:live") demo_tokens.rows ≡ some t)
    × IsExchangeable true exchange t
    × Succeeds exchange demo_tokens t exchanged (arotate true exchange demo_tokens).1
unfolding arotate
rotated_only_if_example = rotated_only_if true exchange demo_tokens exchanged refl refl
