-- ===== src/Tests/Requests.antt =====
-- The theorems on the services at the concrete installation.
use django_ninja_rbac_authen.Prelude.{
  ◌≡◌, ◌≢◌, refl, inl, inr, true, if◌then◌else◌, none, some, [], ◌∷◌, arith, All, pos, ap,
  update_where,
}
use django_ninja_rbac_authen.Errors.{
  raised, invalid_token, token_reused, refresh_token_binding_mismatch, invalid_credentials,
  permission_denied,
}
use django_ninja_rbac_authen.Effects.{ok, err, pure}
use django_ninja_rbac_authen.Decimal.{str_of}
use django_ninja_rbac_authen.Blocklist.{revoke_user, is_blocked}
use django_ninja_rbac_authen.AuditLogs
use django_ninja_rbac_authen.RefreshTokens.Valid.{IsRevoked}
use django_ninja_rbac_authen.Users.{User, user_dto_from_model, has_id, normalize_email}
use django_ninja_rbac_authen.Jwt.RoundTrip.{IsCarried, claims_read}
use django_ninja_rbac_authen.Jwt.{sorted_set}
use django_ninja_rbac_authen.Guard.{authenticate, Principal, principal_of, require_permission}
use django_ninja_rbac_authen.Guard.Authorization.{authorized_as_issued}
use django_ninja_rbac_authen.Rbac.{aget_user_permission_codes}
use django_ninja_rbac_authen.Rbac.Inheritance.{has_permission}
use django_ninja_rbac_authen.Guard.Access.{admission, blocked_now, authenticate-encode}
use django_ninja_rbac_authen.World.{World}
use django_ninja_rbac_authen.AuthService.{device_hash, login, access_token_ttl_seconds}
use django_ninja_rbac_authen.AuthService.Opening.{IsOpened, login_opens}
use django_ninja_rbac_authen.AuthService.Login.{
  failed_login, login_refused, login_only_if, IsAccount,
}
use django_ninja_rbac_authen.AuditService.Effect.{OnlyLogs}
use django_ninja_rbac_authen.Sessions.{logout_all}
use django_ninja_rbac_authen.Sessions.Theft.{IsPunished, refresh_reused, refresh_mismatched}
use django_ninja_rbac_authen.Sessions.Refresh.{IsRefreshed, refresh_exchanges}
use django_ninja_rbac_authen.Sessions.Logout.{logout_link, of_others, logout_all_revokes}
use django_ninja_rbac_authen.Sessions.Revocation.{logout_all_refuses}
use django_ninja_rbac_authen.AdminService.{update_user}
use django_ninja_rbac_authen.AdminService.Deactivation.{
  switch_off, switched_off, off_link, deactivation,
}
use django_ninja_rbac_authen.Tests.Installation.{
  demo, demo_world, demo_tokens, demo_rbac, ada, bob, spent_token, live_token, bobs_token,
  from_browser, from_elsewhere, adas_claims,
}
use django_ninja_rbac_authen.Tests.Tokens.{differs}

refresh_reused_example :
    IsPunished demo "spent" from_browser demo_world spent_token (raised token_reused)
refresh_reused_example =
    refresh_reused demo "spent" from_browser demo_world spent_token refl (λ e. ground arith)

refresh_mismatched_example :
    IsPunished demo "live" from_elsewhere demo_world live_token
      (raised refresh_token_binding_mismatch)
unfolding device_hash
refresh_mismatched_example =
    refresh_mismatched demo "live" from_elsewhere demo_world live_token refl (
      refl,
      ground arith,
      refl,
      (λ e. ground arith),
      λ e.
          differs "sha256:browser" "sha256:robot" refl
            (ap (λ o. elim o [ none ↦ "" | some s ↦ s ]) e),
    )

-- The user of this token is switched off.
refresh_exchanges_example : IsRefreshed demo "bob" from_browser demo_world bobs_token
unfolding str_of
refresh_exchanges_example =
    refresh_exchanges demo "bob" from_browser demo_world bobs_token refl
      (refl, ground arith, λ b n. absurd (n refl)) (refl, (refl, (refl, (refl, tt))))

logout_all_revokes_example :
    let after = logout_all demo 1 from_browser demo_world in
    (after.0 ≡ ok tt)
    × All (λ r. r.user_id ≡ 1 → IsRevoked r) after.1.db.tokens.rows
    × (of_others 1 after.1.db.tokens.rows ≡ of_others 1 demo_tokens.rows)
    × (after.1.redis
        ≡ (revoke_user demo.redis
            (logout_link demo demo_world)
            1
            (demo.platform.now 1)
            (access_token_ttl_seconds demo)
            demo_world.redis).1)
    × (after.1.db.users ≡ demo_world.db.users)
    × (after.1.db.rbac ≡ demo_world.db.rbac)
logout_all_revokes_example = logout_all_revokes demo 1 from_browser demo_world

pub adas_claims-IsCarried : IsCarried adas_claims
adas_claims-IsCarried = record {
  subject = differs "1" "" refl;
  token_id = differs "uuid-0" "" refl;
  issued = ground arith;
  expires = ground arith;
}

authenticate-encode_example :
    (authenticate demo (demo.jwt.encode adas_claims "secret") demo_world).0
    ≡ admission demo 1
        (claims_read adas_claims)
        (blocked_now demo demo_world "uuid-0" 1 (pos 1700000000))
unfolding str_of
authenticate-encode_example =
    authenticate-encode demo adas_claims 0 demo_world adas_claims-IsCarried refl (ground arith)
      (ground arith)

-- The state a few calls after Ada's logout.
abbrev after_logout : World demo
after_logout = record demo_world {
  redis = (logout_all demo 1 from_browser demo_world).1.redis;
  calls = 10;
}

logout_all_refuses_example :
    (authenticate demo (demo.jwt.encode adas_claims "secret") after_logout).0
    ≡ err (raised invalid_token)
unfolding str_of
logout_all_refuses_example =
    logout_all_refuses demo 0 from_browser demo_world after_logout adas_claims
      (adas_claims-IsCarried, refl, refl, refl)
      (refl, refl, ground arith, ground arith, ground arith, refl) (ground arith) (ground arith)
      (ground arith)

login_refused_example :
    let after = login demo "bob@example.com" "builder" from_browser demo_world in
    (after.0 ≡ err (raised invalid_credentials))
    × OnlyLogs demo (failed_login demo "bob@example.com") demo_world after.1
unfolding normalize_email
login_refused_example =
    login_refused demo "bob@example.com" "builder" from_browser demo_world
      (inr (bob, refl, inl refl))

login_only_if_example :
    (u : User) × IsAccount demo "ada@example.com" demo_world u
    × (u.is_active ≡ true)
    × (u.password ≢ "")
    × (demo.platform.check_password "lovelace" u.password ≡ true)
unfolding login str_of AuditLogs.acreate
login_only_if_example =
    login_only_if demo "ada@example.com" "lovelace" from_browser demo_world _ refl

deactivation_example :
    let after = update_user demo 1 switch_off from_browser demo_world in
    (after.0 ≡ ok (user_dto_from_model (switched_off ada)))
    × (after.1.db.users.rows ≡ update_where (has_id 1) switched_off demo_world.db.users.rows)
    × (after.1.redis
        ≡ (revoke_user demo.redis
            (off_link demo demo_world)
            1
            (demo.platform.now 1)
            (access_token_ttl_seconds demo)
            demo_world.redis).1)
    × (after.1.db.tokens ≡ demo_tokens)
    × (after.1.db.rbac ≡ demo_world.db.rbac)
deactivation_example = deactivation demo 1 from_browser demo_world ada refl

abbrev adas_principal : Principal
adas_principal = principal_of 1 (claims_read adas_claims)

authorized_as_issued_example :
    require_permission demo "audit.read" (some adas_principal) (pure tt) demo_world ≡ (
      if has_permission 1 "audit.read" demo_rbac
      then pure tt demo_world
      else (err (raised permission_denied), demo_world))
unfolding str_of aget_user_permission_codes sorted_set is_blocked
authorized_as_issued_example =
    authorized_as_issued demo 0 "audit.read" demo_rbac adas_claims demo_world demo_world
      adas_principal (pure tt) adas_claims-IsCarried refl ("users.write" ∷ [], refl, refl)
      (ground arith) (ground arith)
      (authenticate-encode demo adas_claims 0 demo_world adas_claims-IsCarried refl (ground arith)
        (ground arith))

login_opens_example : IsOpened demo "ada@example.com" "lovelace" from_browser ada demo_world
unfolding normalize_email str_of
login_opens_example =
    login_opens demo "ada@example.com" "lovelace" from_browser ada demo_world refl refl
      (differs "hash:lovelace" "" refl) refl (refl, (refl, (refl, (refl, tt))))
