-- ===== src/Sessions/Refresh.antt =====
-- The answers of `refresh` to a token that is no sign of theft.
use django_ninja_rbac_authen.Prelude.{
  ℕ, suc, subst, ◌+◌, ◌≡◌, refl, ◌⊎◌, inl, inr, Option, none, some, List, String, arith, ap, ◌∙◌,
  find, select, any, Bool-cases,
}
use django_ninja_rbac_authen.Errors.{raised, invalid_token}
use django_ninja_rbac_authen.Effects.{Result, ok, err}
use django_ninja_rbac_authen.Decimal.{str_of}
use django_ninja_rbac_authen.Platform.{Deployment}
use django_ninja_rbac_authen.RefreshTokens.{
  RefreshToken, RefreshTokenDto, RefreshRotationResult, refresh_token_dto, has_hash,
}
use django_ninja_rbac_authen.RefreshTokens.Outcomes.{IsExchangeable, Succeeds, rotated_only_if}
use django_ninja_rbac_authen.RefreshTokens.Total.{
  IsUnused, IsAbsent, IsOutlived, refused_if, rotated_if,
}
use django_ninja_rbac_authen.Rbac.{
  RbacTables, names_of, codes_of, aget_user_role_names, aget_user_permission_codes, is_link,
  is_inherited,
}
use django_ninja_rbac_authen.AuditLogs.{AuditContext, token_refreshed, token_ip_changed}
use django_ninja_rbac_authen.AuditService.{Event, success}
use django_ninja_rbac_authen.AuditService.Effect.{
  OnlyLogs, logged, record_event-ok, logged-OnlyLogs,
}
use django_ninja_rbac_authen.Jwt.{payload_of}
use django_ninja_rbac_authen.Metadata.{end, field}
use django_ninja_rbac_authen.World.{World, tick}
use django_ninja_rbac_authen.AuthService.{
  TokenPair, with_actor, event, single, text_or_null, mask_ip, hash_refresh_token,
  encode_access_token,
}
use django_ninja_rbac_authen.Sessions.{
  issue_refreshed, is_moved, finish_refresh, finish_rotated, after_rotation, refresh,
}
use django_ninja_rbac_authen.Sessions.Theft.{rotation_of, rotation_reply, after_rotate, refresh-eq}

module _ (d : Deployment) where
  -- An access token of this installation for the user, with the roles and permissions of the tables.
  abbrev pub IsAccessTokenFor : ℕ → RbacTables → String → Type 0
  IsAccessTokenFor user s token =
      (roles : List String) × (permissions : List String) × (issued_at : ℕ) × (jti : String)
      × (aget_user_role_names user s ≡ (ok roles, s))
      × (aget_user_permission_codes user s ≡ (ok permissions, s))
      × (token
          ≡ d.jwt.encode
              (payload_of (str_of user) roles permissions d.settings.access_token_lifetime issued_at
                jti)
              d.settings.jwt_secret)

  -- A reply that hands out a pair and leaves tokens, roles and Redis alone.
  abbrev HandsOut : ℕ → String → World d → Result TokenPair × World d → Type 0
  HandsOut user replacement w reply =
      (pair : TokenPair) × (reply.0 ≡ ok pair)
      × (pair.refresh_token ≡ replacement)
      × IsAccessTokenFor user w.db.rbac pair.access_token
      × (reply.1.db.tokens ≡ w.db.tokens)
      × (reply.1.db.rbac ≡ w.db.rbac)
      × (reply.1.redis ≡ w.redis)

  -- The pair that `issue_refreshed` makes.
  abbrev issued_pair : String → ℕ → World d → TokenPair
  issued_pair replacement user w = record {
    access_token =
        d.jwt.encode
          (payload_of (str_of user)
            (names_of (select (λ r. any (is_link user r.id) w.db.rbac.user_roles) w.db.rbac.roles))
            (codes_of (select (is_inherited user w.db.rbac) w.db.rbac.permissions))
            d.settings.access_token_lifetime (d.platform.now w.calls)
            (d.platform.uuid4 (suc w.calls)))
          d.settings.jwt_secret;
    refresh_token = replacement;
  }

  issued_pair-IsAccessTokenFor :
      (replacement : String) (user : ℕ) (w : World d)
      → IsAccessTokenFor user w.db.rbac (issued_pair replacement user w).access_token
  unfolding aget_user_role_names aget_user_permission_codes
  issued_pair-IsAccessTokenFor replacement user w = (_, _, _, _, refl, refl, refl)

  issue_refreshed-eq :
      (replacement : String) (context : AuditContext) (t : RefreshTokenDto) (w : World d)
      → issue_refreshed d replacement context t w ≡ (
        ok (issued_pair replacement t.user_id w),
        logged d
            (event token_refreshed success (single "family_id" t.family_id))
            (with_actor context t.user_id)
            (tick d (tick d w)),
      )
  unfolding issue_refreshed aget_user_role_names aget_user_permission_codes encode_access_token
  issue_refreshed-eq replacement context t w = rw record_event-ok refl

  issue_refreshed-HandsOut :
      (replacement : String) (context : AuditContext) (t : RefreshTokenDto) (w : World d)
      → HandsOut t.user_id replacement w (issue_refreshed d replacement context t w)
  issue_refreshed-HandsOut replacement context t w =
      let kept =
        logged-OnlyLogs d (event token_refreshed success (single "family_id" t.family_id))
          (with_actor context t.user_id) (tick d (tick d w)) in
      rw (issue_refreshed-eq replacement context t w) (
        issued_pair replacement t.user_id w,
        refl,
        refl,
        issued_pair-IsAccessTokenFor replacement t.user_id w,
        kept.tokens,
        kept.rbac,
        kept.redis,
      )

  -- A step before that only logs does not matter.
  HandsOut-behind :
      (user : ℕ) (replacement : String) (e : Event) (w w' : World d)
      (reply : Result TokenPair × World d)
      → OnlyLogs d e w w'
      → HandsOut user replacement w' reply
      → HandsOut user replacement w reply
  HandsOut-behind user replacement e w w' reply kept (pair, q, same, access, tokens, rbac, redis) =
      (
        pair,
        q,
        same,
        subst (λ s. IsAccessTokenFor user s pair.access_token) kept.rbac access,
        tokens ∙ kept.tokens,
        rbac ∙ kept.rbac,
        redis ∙ kept.redis,
      )

  abbrev moved_event : Option String → AuditContext → Event
  moved_event previous context = event token_ip_changed success (
      some (
        field "previous_ip" (text_or_null (mask_ip d previous))
          (field "presented_ip" (text_or_null (mask_ip d context.ip)) end)))

  finish_refresh-HandsOut :
      (replacement : String) (previous : Option String) (context : AuditContext)
      (t : RefreshTokenDto) (w : World d)
      → HandsOut t.user_id replacement w (finish_refresh d replacement previous context t w)
  unfolding finish_refresh
  finish_refresh-HandsOut replacement previous context t w =
      elim (Bool-cases (is_moved d previous context.ip)) [
        | inr same ↦ rw same (issue_refreshed-HandsOut replacement context t w)
        | inl moved ↦
            rw (moved, record_event-ok)
              (HandsOut-behind t.user_id replacement (moved_event previous context) w
                (logged d (moved_event previous context) (with_actor context t.user_id) w)
                (issue_refreshed d replacement context t
                  (logged d (moved_event previous context) (with_actor context t.user_id) w))
                (logged-OnlyLogs d (moved_event previous context) (with_actor context t.user_id) w)
                (issue_refreshed-HandsOut replacement context t
                  (logged d (moved_event previous context) (with_actor context t.user_id) w)))
      ]

  -- A refresh that succeeds: the pair it hands out, and the row of its new refresh token.
  abbrev pub IsRefreshed : String → AuditContext → World d → RefreshToken → Type 0
  IsRefreshed raw context w t =
      let after = refresh d raw context w in
      (pair : TokenPair) × (n : RefreshToken) × (after.0 ≡ ok pair)
      × IsAccessTokenFor t.user_id w.db.rbac pair.access_token
      × (find (has_hash (hash_refresh_token d pair.refresh_token)) after.1.db.tokens.rows ≡ some n)
      × (n.revoked_at ≡ none)
      × (n.user_id ≡ t.user_id)
      × (n.family_id ≡ t.family_id)
      × (n.parent_id ≡ some t.id)
      × (n.expires_at ≡ d.platform.now w.calls + d.settings.refresh_token_lifetime)
      × (after.1.redis ≡ w.redis)

  refreshed :
      (raw : String) (context : AuditContext) (w : World d) (t : RefreshToken)
      (r : RefreshRotationResult)
      → (rotation_reply d raw context w).0 ≡ ok r
      → Succeeds (rotation_of d raw context w) w.db.tokens t r (rotation_reply d raw context w).1
      → IsRefreshed raw context w t
  unfolding after_rotation finish_rotated
  refreshed raw context w t r h
        (n, o, p, prev, f, active, user, family, parent, expires, device, ip) =
      let (pair, q, same, access, tokens, rbac, redis) =
        finish_refresh-HandsOut (d.platform.token_urlsafe (suc w.calls)) r.previous_issued_ip
          context (refresh_token_dto n) (after_rotate d raw context w) in
      let eq : refresh d raw context w
          ≡ finish_refresh d (d.platform.token_urlsafe (suc w.calls)) r.previous_issued_ip context
              (refresh_token_dto n) (after_rotate d raw context w) =
        rw (refresh-eq d raw context w r h, o, after_rotation, p) refl in
      rw eq (
        pair,
        n,
        q,
        subst (λ u. IsAccessTokenFor u w.db.rbac pair.access_token) user access,
        rw (same, tokens) f,
        active,
        user,
        family,
        parent,
        expires,
        redis,
      )

  -- A refresh token that is in the table, neither revoked nor expired, and on its own device where that
  -- is enforced, is exchanged, provided that the hash of the drawn replacement is not in the table yet.
  -- The reply is an access token with the user's present roles and permissions, and a refresh token
  -- under whose hash the table holds an active row of the same user and family, whose parent is the
  -- presented row and which expires a refresh lifetime from now; Redis is not touched. Nothing is
  -- assumed of the user's row, so a deactivated user is served too.
  pub refresh_exchanges :
      (raw : String) (context : AuditContext) (w : World d) (t : RefreshToken)
      → find (has_hash (hash_refresh_token d raw)) w.db.tokens.rows ≡ some t
      → IsExchangeable d.settings.refresh_bind_device (rotation_of d raw context w) t
      → IsUnused (rotation_of d raw context w).replacement_hash w.db.tokens
      → IsRefreshed raw context w t
  refresh_exchanges raw context w t f x u =
      let bind = d.settings.refresh_bind_device in
      let a = rotation_of d raw context w in
      let (r, q, o) = rotated_if bind a w.db.tokens t f x u in
      let (t', f', _, s) = rotated_only_if bind a w.db.tokens r q o in
      let same : t' ≡ t = ground (arith, f, f') in
      refreshed raw context w t r q
        (subst (λ v. Succeeds a w.db.tokens v r (rotation_reply d raw context w).1) same s)

  -- A refresh with a token that is not in the table, or with one that is not revoked and has expired,
  -- raises `InvalidToken`, and the whole database and Redis stay as they were.
  pub refresh_invalid :
      (raw : String) (context : AuditContext) (w : World d)
      → IsAbsent (rotation_of d raw context w) w.db.tokens
        ⊎ IsOutlived (rotation_of d raw context w) w.db.tokens
      → let after = refresh d raw context w in
        (after.0 ≡ err (raised invalid_token)) × (after.1.db ≡ w.db) × (after.1.redis ≡ w.redis)
  unfolding after_rotation
  refresh_invalid raw context w o =
      let cases =
        refused_if d.settings.refresh_bind_device (rotation_of d raw context w) w.db.tokens in
      elim o [
        | inl x ↦
            rw (refresh-eq d raw context w _ (ap (λ p. p.0) (cases.0 x)), cases.0 x)
              (refl, refl, refl)
        | inr x ↦
            rw (refresh-eq d raw context w _ (ap (λ p. p.0) (cases.1 x)), cases.1 x)
              (refl, refl, refl)
      ]
