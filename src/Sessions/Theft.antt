-- ===== src/Sessions/Theft.antt =====
-- Presenting a spent refresh token, or one of another device: the family is closed and the user's
-- access tokens are revoked before the request is refused.
use django_ninja_rbac_authen.Prelude.{
  ℕ, suc, ◌+◌, ◌≡◌, ◌≢◌, find, refl, sym, subst, ◌∙◌, inl, inr, none, some, String, arith, pos,
}
use django_ninja_rbac_authen.Errors.{Error, raised, token_reused, refresh_token_binding_mismatch}
use django_ninja_rbac_authen.Effects.{Result, ok, err}
use django_ninja_rbac_authen.Blocklist.{Link, revoke_user}
use django_ninja_rbac_authen.Blocklist.Laws.{blocklist_total}
use django_ninja_rbac_authen.Platform.{Deployment}
use django_ninja_rbac_authen.RefreshTokens.{
  result_of, RefreshToken, has_hash, RefreshTokenDto, refresh_token_dto, TokenTable, Rotation,
  RefreshRotationResult, reused, binding_mismatch, arotate,
}
use django_ninja_rbac_authen.RefreshTokens.Outcomes.{FamilyClosed, theft_closes_family}
use django_ninja_rbac_authen.RefreshTokens.Total.{IsElsewhere, theft_if}
use django_ninja_rbac_authen.RefreshTokens.Valid.{IsFamilyRevoked}
use django_ninja_rbac_authen.AuditLogs.{
  AuditAction, AuditContext, token_reuse_detected, token_binding_mismatch,
}
use django_ninja_rbac_authen.AuditService.{Event, failure}
use django_ninja_rbac_authen.AuditService.Effect.{logged, record_event-ok, logged-OnlyLogs}
use django_ninja_rbac_authen.World.{World}
use django_ninja_rbac_authen.AuthService.{
  with_actor, event, single, hash_refresh_token, access_token_ttl_seconds, device_hash,
}
use django_ninja_rbac_authen.Sessions.{react_to_theft, after_rotation, refresh}

same_row :
    (t : RefreshToken) (r : RefreshTokenDto)
    → some (refresh_token_dto t) ≡ some r
    → refresh_token_dto t ≡ r
same_row t r e = ground (arith, e)

-- The family that a theft closes is that of the presented row.
closed_family :
    (a : Rotation) (s s' : TokenTable) (r : RefreshRotationResult) (t : RefreshToken)
    → FamilyClosed a s r s'
    → r.refresh_token ≡ some (refresh_token_dto t)
    → IsFamilyRevoked t.family_id s'.rows
closed_family a s s' r t closed e =
    subst (λ (x : RefreshTokenDto). IsFamilyRevoked x.family_id s'.rows)
      (sym (same_row t closed.0 (sym e ∙ closed.1))) closed.3

module _ (d : Deployment) where
  -- The rotation that `refresh` asks for: its clock and its replacement are the next two answers.
  abbrev pub rotation_of : String → AuditContext → World d → Rotation
  rotation_of raw context w = record {
    token_hash = hash_refresh_token d raw;
    replacement_hash = hash_refresh_token d (d.platform.token_urlsafe (suc w.calls));
    replacement_expires_at = d.platform.now w.calls + d.settings.refresh_token_lifetime;
    rotated_at = d.platform.now w.calls;
    presented_device_hash = device_hash d context.user_agent;
    presented_ip = context.ip;
  }

  abbrev pub rotation_reply :
      String → AuditContext → World d → Result RefreshRotationResult × TokenTable
  rotation_reply raw context w =
      arotate d.settings.refresh_bind_device (rotation_of raw context w) w.db.tokens

  -- The state behind the rotation.
  abbrev pub after_rotate : String → AuditContext → World d → World d
  after_rotate raw context w = record w {
    db = record w.db { tokens = (rotation_reply raw context w).1 };
    calls = suc (suc w.calls);
  }

  pub refresh-eq :
      (raw : String) (context : AuditContext) (w : World d) (r : RefreshRotationResult)
      → (rotation_reply raw context w).0 ≡ ok r
      → refresh d raw context w
        ≡ after_rotation d r.outcome
            (d.platform.token_urlsafe (suc w.calls))
            (d.platform.now w.calls)
            context
            r
            (after_rotate raw context w)
  unfolding refresh
  refresh-eq raw context w r h = ground (arith, h)

  -- The connection to Redis after two answers from outside.
  abbrev pub theft_link : World d → Link
  theft_link w = record {
    up = d.platform.redis_up (suc (suc w.calls));
    now = d.platform.now (suc (suc w.calls));
  }

  abbrev revoked_in_redis : ℕ → ℕ → World d → World d
  revoked_in_redis user now w = record w {
    redis =
        (revoke_user d.redis
          (record { up = d.platform.redis_up w.calls; now = d.platform.now w.calls }) user now
          (access_token_ttl_seconds d) w.redis).1;
    calls = suc w.calls;
  }

  react-eq :
      (action : AuditAction) (now : ℕ) (context : AuditContext) (t : RefreshTokenDto) (w : World d)
      → react_to_theft d action now context (some t) w ≡ (
        ok tt,
        logged d
            (event action failure (single "family_id" t.family_id))
            (with_actor context t.user_id)
            (revoked_in_redis t.user_id now w),
      )
  unfolding react_to_theft
  react-eq action now context t w =
      let link : Link = record { up = d.platform.redis_up w.calls; now = d.platform.now w.calls } in
      rw
        (
          (blocklist_total d.redis link "" t.user_id (access_token_ttl_seconds d) now (pos 0)
              w.redis).1,
          record_event-ok,
        )
        refl

  -- The answer to a stolen token, of which `t` is the row: the error, the closed family of the row, and
  -- the revocation of the row's user in Redis.
  abbrev pub IsPunished : String → AuditContext → World d → RefreshToken → Error → Type 0
  IsPunished raw context w t e =
      let after = refresh d raw context w in
      (after.0 ≡ err e)
      × IsFamilyRevoked t.family_id after.1.db.tokens.rows
      × (after.1.redis
          ≡ (revoke_user d.redis (theft_link w) t.user_id (d.platform.now w.calls)
              (access_token_ttl_seconds d) w.redis).1)
      × (after.1.db.users ≡ w.db.users)
      × (after.1.db.rbac ≡ w.db.rbac)

  reuse-eq :
      (raw : String) (context : AuditContext) (w : World d) (r : RefreshRotationResult)
      (t : RefreshTokenDto)
      → (rotation_reply raw context w).0 ≡ ok r
      → r.refresh_token ≡ some t
      → r.outcome ≡ reused
      → refresh d raw context w ≡ (
        err (raised token_reused),
        logged d
            (event token_reuse_detected failure (single "family_id" t.family_id))
            (with_actor context t.user_id)
            (revoked_in_redis t.user_id (d.platform.now w.calls) (after_rotate raw context w)),
      )
  unfolding after_rotation
  reuse-eq raw context w r t h p o =
      rw (refresh-eq raw context w r h, o, after_rotation, p, react-eq) refl

  mismatch-eq :
      (raw : String) (context : AuditContext) (w : World d) (r : RefreshRotationResult)
      (t : RefreshTokenDto)
      → (rotation_reply raw context w).0 ≡ ok r
      → r.refresh_token ≡ some t
      → r.outcome ≡ binding_mismatch
      → refresh d raw context w ≡ (
        err (raised refresh_token_binding_mismatch),
        logged d
            (event token_binding_mismatch failure (single "family_id" t.family_id))
            (with_actor context t.user_id)
            (revoked_in_redis t.user_id (d.platform.now w.calls) (after_rotate raw context w)),
      )
  unfolding after_rotation
  mismatch-eq raw context w r t h p o =
      rw (refresh-eq raw context w r h, o, after_rotation, p, react-eq) refl

  punished :
      (raw : String) (context : AuditContext) (w : World d) (t : RefreshToken) (e : Error)
      (ev : Event) (c : AuditContext)
      → IsFamilyRevoked t.family_id (rotation_reply raw context w).1.rows
      → refresh d raw context w ≡ (
        err e,
        logged d ev c
            (revoked_in_redis t.user_id (d.platform.now w.calls) (after_rotate raw context w)),
      )
      → IsPunished raw context w t e
  punished raw context w t e ev c family q =
      let before =
        revoked_in_redis t.user_id (d.platform.now w.calls) (after_rotate raw context w) in
      let kept = logged-OnlyLogs d ev c before in
      rw q (refl, rw kept.tokens family, kept.redis, kept.users, kept.rbac)

  theft_answers :
      (raw : String) (context : AuditContext) (w : World d) (t : RefreshToken)
      → find (has_hash (hash_refresh_token d raw)) w.db.tokens.rows ≡ some t
      → (t.revoked_at ≢ none → IsPunished raw context w t (raised token_reused))
        × (IsElsewhere d.settings.refresh_bind_device (rotation_of raw context w) t
            → IsPunished raw context w t (raised refresh_token_binding_mismatch))
  theft_answers raw context w t f =
      let bind = d.settings.refresh_bind_device in
      let a = rotation_of raw context w in
      let cases = theft_if bind a w.db.tokens t f in
      (
        λ spent.
            let r = result_of reused (some t) none in
            let closed = theft_closes_family bind a w.db.tokens r (cases.0 spent) (inl refl) in
            punished raw context w t (raised token_reused)
              (event token_reuse_detected failure (single "family_id" t.family_id))
              (with_actor context t.user_id)
              (closed_family a w.db.tokens (rotation_reply raw context w).1 r t closed refl)
              (reuse-eq raw context w r (refresh_token_dto t) (cases.0 spent) refl refl),
        λ x.
            let r = result_of binding_mismatch (some t) none in
            let closed = theft_closes_family bind a w.db.tokens r (cases.1 x) (inr refl) in
            punished raw context w t (raised refresh_token_binding_mismatch)
              (event token_binding_mismatch failure (single "family_id" t.family_id))
              (with_actor context t.user_id)
              (closed_family a w.db.tokens (rotation_reply raw context w).1 r t closed refl)
              (mismatch-eq raw context w r (refresh_token_dto t) (cases.1 x) refl refl),
      )

  -- A refresh with a token that is in the table and revoked raises `TokenReused`. By then every token of
  -- the family of its row is revoked, the revocation of the row's user's access tokens has been sent to
  -- Redis, and users and roles are unchanged.
  pub refresh_reused :
      (raw : String) (context : AuditContext) (w : World d) (t : RefreshToken)
      → find (has_hash (hash_refresh_token d raw)) w.db.tokens.rows ≡ some t
      → t.revoked_at ≢ none
      → IsPunished raw context w t (raised token_reused)
  refresh_reused raw context w t f spent = (theft_answers raw context w t f).0 spent

  -- A refresh with a token that is in the table, live, and bound to another device than the one that
  -- presents it, while the binding is enforced, raises `RefreshTokenBindingMismatch`. By then every
  -- token of the family of its row is revoked, the revocation of the row's user's access tokens has
  -- been sent to Redis, and users and roles are unchanged.
  pub refresh_mismatched :
      (raw : String) (context : AuditContext) (w : World d) (t : RefreshToken)
      → find (has_hash (hash_refresh_token d raw)) w.db.tokens.rows ≡ some t
      → IsElsewhere d.settings.refresh_bind_device (rotation_of raw context w) t
      → IsPunished raw context w t (raised refresh_token_binding_mismatch)
  refresh_mismatched raw context w t f x = (theft_answers raw context w t f).1 x
