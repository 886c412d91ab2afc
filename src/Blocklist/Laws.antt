-- ===== src/Blocklist/Laws.antt =====
-- What a revocation does to later checks, for how long, and to whom.
use django_ninja_rbac_authen.Prelude.{
  ℕ, ◌+◌, ◌*◌, ◌≤◌, ◌<◌, ◌≡◌, ◌≢◌, refl, sym, Bool, true, false, String, arith, leb, ltb, ℤ, inl,
  inr, Bool-cases,
}
use django_ninja_rbac_authen.Effects.{Result, ok, err, handle, pure}
use django_ninja_rbac_authen.Decimal.{str_of}
use django_ninja_rbac_authen.Redis.{RedisServer}
use django_ninja_rbac_authen.Blocklist.{
  Link, any_error, epoch_of, token_key, user_epoch_key, block_token, revoke_user, is_blocked,
  check_values,
}
use django_ninja_rbac_authen.Blocklist.Keys.{token_key-injective, token_key-ne-user_epoch_key}

-- A token whose `iat` is a whole second is older than the epoch exactly when it is older than the
-- instant of the revocation.
pub epoch-cutoff : (iat at : ℕ) → ltb iat (epoch_of at) ≡ ltb (iat * 1000000) at
epoch-cutoff iat at = ground arith

le-false : (n : ℕ) → 0 < n → leb n 0 ≡ false
le-false n h = ground arith

module _ (redis : RedisServer) where
  open redis use {Store, get, set, get-set_self, get-set_expired, get-set_ne}

  abbrev pub verdict : Result Bool → Bool
  verdict (ok b) = b
  verdict (err _) = false

  handle-verdict :
      (r : Result Bool) (s : Store)
      → handle any_error (λ _. pure false) (r, s) ≡ (ok (verdict r), s)
  handle-verdict (ok b) s = refl
  handle-verdict (err e) s = refl

  -- The answer of `is_blocked`, from what Redis holds under the two keys.
  pub is_blocked-up :
      (link : Link) (jti : String) (user : ℕ) (iat : ℤ) (s : Store)
      → link.up ≡ true
      → is_blocked redis link jti user iat s ≡ (
        ok (
            verdict (
              check_values iat
                (get s (token_key jti) link.now)
                (get s (user_epoch_key user) link.now))),
        s,
      )
  unfolding is_blocked
  is_blocked-up link jti user iat s up = rw up (
      handle-verdict
        (check_values iat (get s (token_key jti) link.now) (get s (user_epoch_key user) link.now))
        s)

  pub is_blocked-down :
      (link : Link) (jti : String) (user : ℕ) (iat : ℤ) (s : Store)
      → link.up ≡ false
      → is_blocked redis link jti user iat s ≡ (ok false, s)
  unfolding is_blocked
  is_blocked-down link jti user iat s down = rw down refl

  pub block_token-up :
      (link : Link) (jti : String) (ttl : ℕ) (s : Store)
      → link.up ≡ true
      → 0 < ttl
      → block_token redis link jti ttl s ≡ (ok tt, set s (token_key jti) "1" ttl link.now)
  unfolding block_token
  block_token-up link jti ttl s up h = rw (le-false ttl h, up) refl

  pub revoke_user-up :
      (link : Link) (user at ttl : ℕ) (s : Store)
      → link.up ≡ true
      → 0 < ttl
      → revoke_user redis link user at ttl s
        ≡ (ok tt, set s (user_epoch_key user) (str_of (epoch_of at)) ttl link.now)
  unfolding revoke_user
  revoke_user-up link user at ttl s up h = rw (le-false ttl h, up) refl

  block_token-ok :
      (link : Link) (jti : String) (ttl : ℕ) (s : Store)
      → ((block_token redis link jti ttl s).0 ≡ ok tt)
        × (link.up ≡ false → (block_token redis link jti ttl s).1 ≡ s)
  unfolding block_token
  block_token-ok link jti ttl s = elim (Bool-cases (leb ttl 0)) [
    | inl z ↦ rw z (refl, λ _. refl)
    | inr nz ↦ elim (Bool-cases link.up) [
      | inl up ↦ rw (nz, up) (refl, λ e. cc)
      | inr down ↦ rw (nz, down) (refl, λ e. refl)
    ]
  ]

  revoke_user-ok :
      (link : Link) (user at ttl : ℕ) (s : Store)
      → ((revoke_user redis link user at ttl s).0 ≡ ok tt)
        × (link.up ≡ false → (revoke_user redis link user at ttl s).1 ≡ s)
  unfolding revoke_user
  revoke_user-ok link user at ttl s = elim (Bool-cases (leb ttl 0)) [
    | inl z ↦ rw z (refl, λ _. refl)
    | inr nz ↦ elim (Bool-cases link.up) [
      | inl up ↦ rw (nz, up) (refl, λ e. cc)
      | inr down ↦ rw (nz, down) (refl, λ e. refl)
    ]
  ]

  is_blocked-total :
      (link : Link) (jti : String) (user : ℕ) (iat : ℤ) (s : Store)
      → (b : Bool) × (is_blocked redis link jti user iat s ≡ (ok b, s))
  is_blocked-total link jti user iat s = elim (Bool-cases link.up) [
    | inl up ↦ (_, is_blocked-up link jti user iat s up)
    | inr down ↦ (false, is_blocked-down link jti user iat s down)
  ]

  -- No method of the blocklist raises, whatever state Redis is in, and a check changes nothing.
  pub blocklist_total :
      (link : Link) (jti : String) (user ttl at : ℕ) (iat : ℤ) (s : Store)
      → ((block_token redis link jti ttl s).0 ≡ ok tt)
        × ((revoke_user redis link user at ttl s).0 ≡ ok tt)
        × ((b : Bool) × (is_blocked redis link jti user iat s ≡ (ok b, s)))
  blocklist_total link jti user ttl at iat s = (
    (block_token-ok link jti ttl s).0,
    (revoke_user-ok link user at ttl s).0,
    is_blocked-total link jti user iat s,
  )

  -- Where Redis is down, no token counts as blocked, and no method raises or changes what Redis holds.
  pub fail_open :
      (link : Link) (jti : String) (user ttl at : ℕ) (iat : ℤ) (s : Store)
      → link.up ≡ false
      → (is_blocked redis link jti user iat s ≡ (ok false, s))
        × (block_token redis link jti ttl s ≡ (ok tt, s))
        × (revoke_user redis link user at ttl s ≡ (ok tt, s))
  fail_open link jti user ttl at iat s down = (
    is_blocked-down link jti user iat s down,
    λ i. ((block_token-ok link jti ttl s).0 i, (block_token-ok link jti ttl s).1 down i),
    λ i. ((revoke_user-ok link user at ttl s).0 i, (revoke_user-ok link user at ttl s).1 down i),
  )

  -- If Redis is up when a token is blocked for a lifetime that is not zero, and up again for a check
  -- before that lifetime has passed, then the token counts as blocked, and the check of any other token
  -- gives what it gave before.
  pub block_token-is_blocked :
      (link later : Link) (jti other : String) (user ttl : ℕ) (iat : ℤ) (s : Store)
      → link.up ≡ true
      → later.up ≡ true
      → 0 < ttl
      → link.now ≤ later.now
      → later.now < link.now + ttl * 1000000
      → other ≢ jti
      → let s' = (block_token redis link jti ttl s).1 in
        ((is_blocked redis later jti user iat s').0 ≡ ok true)
        × ((is_blocked redis later other user iat s').0
            ≡ (is_blocked redis later other user iat s).0)
  block_token-is_blocked link later jti other user ttl iat s up up' h early late ne =
      rw (block_token-up link jti ttl s up h) (
        rw
            (
              is_blocked-up later jti user iat _ up',
              get-set_self s (token_key jti) "1" ttl link.now later.now early late,
            )
            refl,
        rw
            (
              is_blocked-up later other user iat _ up',
              is_blocked-up later other user iat s up',
              get-set_ne s (token_key jti) (token_key other) "1" ttl link.now later.now
                  (λ e. ne (sym (token_key-injective jti other e))),
              get-set_ne s (token_key jti) (user_epoch_key user) "1" ttl link.now later.now
                  (token_key-ne-user_epoch_key jti user),
            )
            refl,
      )
