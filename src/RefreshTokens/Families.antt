-- ===== src/RefreshTokens/Families.antt =====
-- The session of a family: the hash of the token that can still be used, and what becomes of it when rows
-- of the RefreshToken table are changed, deleted or added.
use django_ninja_rbac_authen.Prelude.{
  ℕ, ◌≡◌, refl, sym, ap, subst, ◌∙◌, inl, inr, Bool, true, false, ◌&&◌, Option, none, some, List,
  [], ◌∷◌, ◌++◌, String, str_eq, eq_iff, arith, ◌==◌, find, select, update_where, All, All-map,
  Pairwise, if◌then◌else◌, find_step, find-All, Bool-cases,
}
use django_ninja_rbac_authen.RefreshTokens.{RefreshToken, has_hash, is_active, revoke_row}
use django_ninja_rbac_authen.RefreshTokens.Valid.{AreCompatible, IsFamilyRevoked}

abbrev pub is_current : String → RefreshToken → Bool
is_current g r = str_eq r.family_id g && is_active r

abbrev hash? : Option RefreshToken → Option String
hash? none = none
hash? (some r) = some r.token_hash

abbrev pub session : String → List RefreshToken → Option String
session g rows = hash? (find (is_current g) rows)

-- A row that keeps its family and its hash, and does not come back to life.
abbrev pub Fades : RefreshToken → RefreshToken → Type 0
Fades r r' =
    (r'.family_id ≡ r.family_id)
    × (r'.token_hash ≡ r.token_hash)
    × (is_active r ≡ false → is_active r' ≡ false)

module _ (g : String) where
  pub session-hit :
      (r : RefreshToken) (rows : List RefreshToken)
      → is_current g r ≡ true
      → session g (r ∷ rows) ≡ some r.token_hash
  session-hit r rows h = rw h refl

  pub session-miss :
      (r : RefreshToken) (rows : List RefreshToken)
      → is_current g r ≡ false
      → session g (r ∷ rows) ≡ session g rows
  session-miss r rows h = rw h refl

  Fades-is_current :
      (r r' : RefreshToken) → Fades r r' → is_current g r ≡ false → is_current g r' ≡ false
  Fades-is_current r r' f h = ground (arith, f, h)

  is_current-compatible :
      (r t : RefreshToken) → AreCompatible r t → is_current g r ≡ true → is_current g t ≡ false
  is_current-compatible r t c h = ground (arith, c, h, eq_iff r.family_id g, eq_iff t.family_id g)

  pub session-alone :
      (r : RefreshToken) (rows : List RefreshToken)
      → is_current g r ≡ true
      → All (AreCompatible r) rows
      → session g rows ≡ none
  session-alone r [] h c = refl
  session-alone r (t ∷ rows) h c =
      session-miss t rows (is_current-compatible r t c.0 h) ∙ session-alone r rows h c.1

  pub session-closed : (rows : List RefreshToken) → IsFamilyRevoked g rows → session g rows ≡ none
  session-closed [] c = refl
  session-closed (r ∷ rows) c =
      session-miss r rows (ground (arith, c.0, eq_iff r.family_id g)) ∙ session-closed rows c.1

  module _ (p : RefreshToken → Bool) (f : RefreshToken → RefreshToken) where
    abbrev updated : RefreshToken → RefreshToken
    updated r = if p r then f r else r

    pub session-update-none :
        (rows : List RefreshToken)
        → ((r : RefreshToken) → Fades r (updated r))
        → session g rows ≡ none
        → session g (update_where p f rows) ≡ none
    session-update-none [] fades h = refl
    session-update-none (r ∷ rows) fades h = elim (Bool-cases (is_current g r)) [
      | inl on ↦ absurd (ground (arith, sym (session-hit r rows on) ∙ h))
      | inr off ↦
          session-miss (updated r) (update_where p f rows)
            (Fades-is_current r (updated r) (fades r) off)
          ∙ session-update-none rows fades (sym (session-miss r rows off) ∙ h)
    ]

  module _ (q : RefreshToken → Bool) where
    pub session-select-none :
        (rows : List RefreshToken) → session g rows ≡ none → session g (select q rows) ≡ none
    session-select-none [] h = refl
    session-select-none (r ∷ rows) h = elim (Bool-cases (is_current g r)) [
      | inl on ↦ absurd (ground (arith, sym (session-hit r rows on) ∙ h))
      | inr off ↦
          let rest : session g (select q rows) ≡ none =
            session-select-none rows (sym (session-miss r rows off) ∙ h) in
          elim (Bool-cases (q r)) [
            | inl kept ↦ rw kept (session-miss r (select q rows) off ∙ rest)
            | inr dropped ↦ rw dropped rest
          ]
    ]

  -- Revoking rows that are not the family's active one leaves the session as it was.
  pub session-revoke_others :
      (p : RefreshToken → Bool) (at : ℕ) (rows : List RefreshToken)
      → All (λ r. p r ≡ true → is_current g r ≡ false) rows
      → session g (update_where p (revoke_row at) rows) ≡ session g rows
  session-revoke_others p at [] h = refl
  session-revoke_others p at (r ∷ rows) h = elim (Bool-cases (p r)) [
    | inl hit ↦ rw hit (
        session-miss (revoke_row at r) (update_where p (revoke_row at) rows) (ground arith)
        ∙ session-revoke_others p at rows h.1
        ∙ sym (session-miss r rows (h.0 hit)))
    | inr miss ↦ rw miss (elim (Bool-cases (is_current g r)) [
      | inl on ↦
          session-hit r (update_where p (revoke_row at) rows) on ∙ sym (session-hit r rows on)
      | inr off ↦
          session-miss r (update_where p (revoke_row at) rows) off
          ∙ session-revoke_others p at rows h.1
          ∙ sym (session-miss r rows off)
    ])
  ]

  pub session-append_other :
      (rows : List RefreshToken) (n : RefreshToken)
      → is_current g n ≡ false
      → session g (rows ++ n ∷ []) ≡ session g rows
  session-append_other [] n h = session-miss n [] h
  session-append_other (r ∷ rows) n h = elim (Bool-cases (is_current g r)) [
    | inl on ↦ session-hit r (rows ++ n ∷ []) on ∙ sym (session-hit r rows on)
    | inr off ↦
        session-miss r (rows ++ n ∷ []) off
        ∙ session-append_other rows n h
        ∙ sym (session-miss r rows off)
  ]

  pub session-append_new :
      (rows : List RefreshToken) (n : RefreshToken)
      → session g rows ≡ none
      → is_current g n ≡ true
      → session g (rows ++ n ∷ []) ≡ some n.token_hash
  session-append_new [] n h new = session-hit n [] new
  session-append_new (r ∷ rows) n h new = elim (Bool-cases (is_current g r)) [
    | inl on ↦ absurd (ground (arith, sym (session-hit r rows on) ∙ h))
    | inr off ↦
        session-miss r (rows ++ n ∷ []) off
        ∙ session-append_new rows n (sym (session-miss r rows off) ∙ h) new
  ]

-- The row that is found under a hash, where it is active, is its family's session.
pub session-find :
    (h : String) (rows : List RefreshToken) (t : RefreshToken)
    → Pairwise AreCompatible rows
    → find (has_hash h) rows ≡ some t
    → is_active t ≡ true
    → session t.family_id rows ≡ some h
session-find h [] t d f a = absurd (cc)
session-find h (r ∷ rows) t d f a = elim (find_step (has_hash h) r t (find (has_hash h) rows) f) [
  | inl (test, e) ↦
      subst (λ x. session x.family_id (r ∷ rows) ≡ some h) e
        (session-hit r.family_id r rows
            (ground (arith, e_active e a, eq_iff r.family_id r.family_id))
          ∙ ap some ((eq_iff r.token_hash h).0 test))
  | inr (_, f') ↦
      session-miss t.family_id r rows
        (apart (find-All (AreCompatible r) (has_hash h) rows t f' d.0))
      ∙ session-find h rows t d.1 f' a
]
  where
    apart : AreCompatible r t → is_current t.family_id r ≡ false
    apart c = ground (arith, c, a, eq_iff r.family_id t.family_id)

    e_active : r ≡ t → is_active t ≡ true → is_active r ≡ true
    e_active e h = ap (λ (x : RefreshToken). is_active x) e ∙ h

-- No other row has its key.
pub same_key :
    (h : String) (rows : List RefreshToken) (t : RefreshToken)
    → Pairwise AreCompatible rows
    → find (has_hash h) rows ≡ some t
    → All (λ r. (r.id == t.id) ≡ true → r.family_id ≡ t.family_id) rows
same_key h [] t d f = tt
same_key h (r ∷ rows) t d f = elim (find_step (has_hash h) r t (find (has_hash h) rows) f) [
  | inl (_, e) ↦ (
    (λ k. ap (λ (x : RefreshToken). x.family_id) e),
    All-map (AreCompatible r) (λ x. (x.id == t.id) ≡ true → x.family_id ≡ t.family_id) rows
        (λ x c k. absurd (c.0 (ap (λ (y : RefreshToken). y.id) e ∙ ground (arith, k)))) d.0,
  )
  | inr (_, f') ↦ (
    (λ k. absurd ((find-All (AreCompatible r) (has_hash h) rows t f' d.0).0 (ground (arith, k)))),
    same_key h rows t d.1 f',
  )
]
