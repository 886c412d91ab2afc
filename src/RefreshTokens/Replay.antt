-- ===== src/RefreshTokens/Replay.antt =====
-- Replay protection: a refresh token is exchanged once, whatever comes between two attempts.
use django_ninja_rbac_authen.Prelude.{
  ℕ, ◌≡◌, ◌≢◌, refl, ap, inl, inr, Bool, true, false, not, ◌&&◌, some, List, [], ◌∷◌, String,
  eq_iff, arith, ◌==◌, find, any, select, update_where, All, Pairwise, if◌then◌else◌, find_step,
  find_test, find-All, find-update_where, any-of_find, All-append, All-update_where, All-select,
  Bool-cases,
}
use django_ninja_rbac_authen.Effects.{ok}
use django_ninja_rbac_authen.RefreshTokens.{
  RefreshToken, TokenTable, NewToken, Rotation, RefreshRotationResult, rotated, has_hash, is_active,
  revoke_row, new_row, is_child_of, is_of_user, unparented, replacement_of, insert_token,
  revoke_where, acreate, arevoke, arevoke_family, arevoke_user, arotate, cascade_user,
}
use django_ninja_rbac_authen.RefreshTokens.Cases.{
  RotationReply, RotateCase, absent, replayed, outlived, stolen, collides, rotates, consumed,
  rotate_cases,
}
use django_ninja_rbac_authen.RefreshTokens.Valid.{AreCompatible, IsValid, IsRevoked}
use django_ninja_rbac_authen.RefreshTokens.History.{
  Operation, create, revoke, revoke_family, revoke_user, rotate, delete_user, apply, run,
}

-- No row of the table could be exchanged for this hash.
abbrev pub IsSpent : String → TokenTable → Type 0
IsSpent h s = All (λ r. has_hash h r ≡ true → IsRevoked r) s.rows

abbrev Spends : String → RefreshToken → Type 0
Spends h r = has_hash h r ≡ true → IsRevoked r

-- The operation does not store a new token under this hash.
abbrev pub Avoids : String → Operation → Type 0
Avoids h (create n) = n.token_hash ≢ h
Avoids h (rotate a) = a.replacement_hash ≢ h
Avoids h _ = Unit

module _ (h : String) where
  revoke_where-IsSpent :
      (p : RefreshToken → Bool) (at : ℕ) (s : TokenTable)
      → IsSpent h s
      → IsSpent h (revoke_where p at s).1
  unfolding revoke_where
  revoke_where-IsSpent p at s spent =
      All-update_where (Spends h) (Spends h) (λ t. p t && is_active t) (revoke_row at) s.rows
        (λ r k. ground arith) spent

  insert_token-IsSpent :
      (n : NewToken) (s : TokenTable)
      → n.token_hash ≢ h
      → IsSpent h s
      → IsSpent h (insert_token n s).1
  unfolding insert_token
  insert_token-IsSpent n s ne spent = elim (Bool-cases (any (has_hash n.token_hash) s.rows)) [
    | inl taken ↦ rw taken spent
    | inr free ↦ rw free (
        All-append (Spends h) s.rows (new_row s.next_id n ∷ []) spent
          ((λ e. absurd (ne ((eq_iff n.token_hash h).0 e))), tt))
  ]

  acreate-IsSpent :
      (n : NewToken) (s : TokenTable) → n.token_hash ≢ h → IsSpent h s → IsSpent h (acreate n s).1
  unfolding acreate
  acreate-IsSpent n s ne spent = elim (Bool-cases (any (has_hash n.token_hash) s.rows)) [
    | inl taken ↦ rw taken spent
    | inr free ↦ rw free (
        All-append (Spends h) s.rows (new_row s.next_id n ∷ []) spent
          ((λ e. absurd (ne ((eq_iff n.token_hash h).0 e))), tt))
  ]

  consumed-IsSpent :
      (bind : Bool) (a : Rotation) (s : TokenTable) (t : RefreshToken)
      → IsSpent h s
      → IsSpent h (consumed bind a s t)
  consumed-IsSpent bind a s t spent =
      All-update_where (Spends h) (Spends h) (λ r. r.id == t.id) (revoke_row a.rotated_at) s.rows
        (λ r k. ground arith) spent

  rotate-IsSpent :
      (bind : Bool) (a : Rotation) (s : TokenTable) (r : RotationReply)
      → a.replacement_hash ≢ h
      → IsSpent h s
      → RotateCase bind a s r
      → IsSpent h r.1
  rotate-IsSpent bind a s r ne spent (absent _ e) = rw e spent
  rotate-IsSpent bind a s r ne spent (replayed t _ _ e) = rw e (revoke_where-IsSpent _ _ s spent)
  rotate-IsSpent bind a s r ne spent (outlived _ _ _ _ e) = rw e spent
  rotate-IsSpent bind a s r ne spent (stolen t _ _ _ _ e) = rw e (revoke_where-IsSpent _ _ s spent)
  rotate-IsSpent bind a s r ne spent (collides _ _ _ e) = rw e spent
  rotate-IsSpent bind a s r ne spent (rotates t _ _ _ _ _ e) = rw e (
      insert_token-IsSpent (replacement_of a t) (consumed bind a s t) ne
        (consumed-IsSpent bind a s t spent))

  cascade_user-IsSpent : (u : ℕ) (s : TokenTable) → IsSpent h s → IsSpent h (cascade_user u s)
  unfolding cascade_user
  cascade_user-IsSpent u s spent =
      All-update_where (Spends h) (Spends h) (is_child_of (select (is_of_user u) s.rows)) unparented
        (select (λ t. not (is_of_user u t)) s.rows) (λ r k. ground arith)
        (All-select (Spends h) (λ t. not (is_of_user u t)) s.rows spent)

  apply-IsSpent :
      (bind : Bool) (o : Operation) (s : TokenTable)
      → Avoids h o
      → IsSpent h s
      → IsSpent h (apply bind o s)
  unfolding apply
  apply-IsSpent bind (create n) s ne spent = acreate-IsSpent n s ne spent
  apply-IsSpent bind (revoke id at) s ne spent = unfold arevoke in revoke_where-IsSpent _ at s spent
  apply-IsSpent bind (revoke_family f at) s ne spent =
      unfold arevoke_family in revoke_where-IsSpent _ at s spent
  apply-IsSpent bind (revoke_user u at) s ne spent =
      unfold arevoke_user in revoke_where-IsSpent _ at s spent
  apply-IsSpent bind (rotate a) s ne spent =
      rotate-IsSpent bind a s _ ne spent (rotate_cases bind a s)
  apply-IsSpent bind (delete_user u) s ne spent = cascade_user-IsSpent u s spent

  run-IsSpent :
      (bind : Bool) (os : List Operation) (s : TokenTable)
      → All (Avoids h) os
      → IsSpent h s
      → IsSpent h (run bind os s)
  unfolding run
  run-IsSpent bind [] s ne spent = spent
  run-IsSpent bind (o ∷ os) s ne spent =
      run-IsSpent bind os (apply bind o s) ne.1 (apply-IsSpent bind o s ne.0 spent)

abbrev SpentAfter : String → RefreshToken → ℕ → RefreshToken → Type 0
SpentAfter h t at r = Spends h (if r.id == t.id then revoke_row at r else r)

SpentAfter-self :
    (h : String) (t : RefreshToken) (at : ℕ) (r : RefreshToken) → r ≡ t → SpentAfter h t at r
SpentAfter-self h t at r e = ground (arith, ap (λ (x : RefreshToken). x.id) e)

Spent_after-other :
    (h : String) (t : RefreshToken) (at : ℕ) (r : RefreshToken)
    → has_hash h r ≡ false
    → SpentAfter h t at r
Spent_after-other h t at r e = ground arith

-- Revoking the row that was found under a hash leaves no active row under it.
spent_by_revoking :
    (h : String) (at : ℕ) (rows : List RefreshToken) (t : RefreshToken)
    → Pairwise AreCompatible rows
    → find (has_hash h) rows ≡ some t
    → All (Spends h) (update_where (λ r. r.id == t.id) (revoke_row at) rows)
spent_by_revoking h at [] t d f = absurd (cc)
spent_by_revoking h at (r ∷ rows) t d f =
    elim (find_step (has_hash h) r t (find (has_hash h) rows) f) [
      | inl (m, e) ↦ (
        SpentAfter-self h t at r e,
        All-update_where (AreCompatible r) (Spends h) (λ x. x.id == t.id) (revoke_row at) rows
            (λ x c.
              Spent_after-other h t at x
                (ground (arith, eq_iff r.token_hash h, eq_iff x.token_hash h)))
            d.0,
      )
      | inr (m, f') ↦ (Spent_after-other h t at r m, spent_by_revoking h at rows t d.1 f')
    ]

-- The consumed row is still in the table, so a replacement cannot share its hash.
replacement-ne :
    (bind : Bool) (a : Rotation) (s : TokenTable) (t : RefreshToken)
    → find (has_hash a.token_hash) s.rows ≡ some t
    → any (has_hash a.replacement_hash) (consumed bind a s t).rows ≡ false
    → a.replacement_hash ≢ a.token_hash
replacement-ne bind a s t f free e =
    let found =
      find-update_where (has_hash a.token_hash) (λ r. r.id == t.id) (revoke_row a.rotated_at) s.rows
        t (λ r. refl) f in
    let there = any-of_find (has_hash a.token_hash) (consumed bind a s t).rows _ found in
    cc (there, free, e)

IsSpent-by_rotation :
    (bind : Bool) (a : Rotation) (s : TokenTable) (reply : RotationReply)
    (r : RefreshRotationResult)
    → IsValid s
    → RotateCase bind a s reply
    → reply.0 ≡ ok r
    → r.outcome ≡ rotated
    → IsSpent a.token_hash reply.1
IsSpent-by_rotation bind a s reply r v (absent _ e) q o = absurd (ground arith)
IsSpent-by_rotation bind a s reply r v (replayed t _ _ e) q o = absurd (ground arith)
IsSpent-by_rotation bind a s reply r v (outlived _ _ _ _ e) q o = absurd (ground arith)
IsSpent-by_rotation bind a s reply r v (stolen t _ _ _ _ e) q o = absurd (ground arith)
IsSpent-by_rotation bind a s reply r v (collides _ _ _ e) q o = absurd (ground arith)
IsSpent-by_rotation bind a s reply r v (rotates t f _ _ _ free e) q o = rw e (
    insert_token-IsSpent a.token_hash (replacement_of a t) (consumed bind a s t)
      (replacement-ne bind a s t f free)
      (spent_by_revoking a.token_hash a.rotated_at s.rows t v.distinct f))

-- A spent hash is not exchanged.
spent-ne-rotated :
    (bind : Bool) (a : Rotation) (s : TokenTable) (reply : RotationReply)
    (r : RefreshRotationResult)
    → IsSpent a.token_hash s
    → RotateCase bind a s reply
    → reply.0 ≡ ok r
    → r.outcome ≢ rotated
spent-ne-rotated bind a s reply r spent (absent _ e) q o = ground arith
spent-ne-rotated bind a s reply r spent (replayed t _ _ e) q o = ground arith
spent-ne-rotated bind a s reply r spent (outlived _ _ _ _ e) q o = ground arith
spent-ne-rotated bind a s reply r spent (stolen t _ _ _ _ e) q o = ground arith
spent-ne-rotated bind a s reply r spent (collides _ _ _ e) q o = ground arith
spent-ne-rotated bind a s reply r spent (rotates t f active _ _ _ e) q o =
    let test = find_test (has_hash a.token_hash) s.rows t f in
    let closed = find-All (Spends a.token_hash) (has_hash a.token_hash) s.rows t f spent test in
    cc (active, closed)

-- A refresh token that was exchanged in a valid table is never exchanged again, whatever operations
-- come between the two attempts, as long as none of them stores a new token under the same hash.
pub no_replay :
    (bind : Bool) (first second : Rotation) (s : TokenTable) (r r' : RefreshRotationResult)
    (os : List Operation)
    → IsValid s
    → second.token_hash ≡ first.token_hash
    → (arotate bind first s).0 ≡ ok r
    → r.outcome ≡ rotated
    → All (Avoids first.token_hash) os
    → (arotate bind second (run bind os (arotate bind first s).1)).0 ≡ ok r'
    → r'.outcome ≢ rotated
no_replay bind first second s r r' os v same q o ne q' =
    let spent = IsSpent-by_rotation bind first s _ r v (rotate_cases bind first s) q o in
    let later = run-IsSpent first.token_hash bind os (arotate bind first s).1 ne spent in
    let s' = run bind os (arotate bind first s).1 in
    spent-ne-rotated bind second s' _ r' (rw same later) (rotate_cases bind second s') q'
