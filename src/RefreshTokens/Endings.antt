-- ===== src/RefreshTokens/Endings.antt =====
-- Which sessions end when rows of the RefreshToken table are revoked or deleted: exactly those whose
-- usable token is among the rows.
use django_ninja_rbac_authen.Prelude.{
  ℕ, ◌≡◌, refl, sym, ◌∙◌, inl, inr, Bool, false, not, ◌&&◌, none, List, [], ◌∷◌, String, arith, any,
  select, update_where, Pairwise, Bool-cases, if◌then◌else◌,
}
use django_ninja_rbac_authen.RefreshTokens.{
  RefreshToken, TokenTable, is_active, revoke_row, revoke_where, cascade_user, is_child_of,
  is_of_user, unparented,
}
use django_ninja_rbac_authen.RefreshTokens.Valid.{IsValid, AreCompatible}
use django_ninja_rbac_authen.RefreshTokens.Families.{
  is_current, session, session-hit, session-miss, session-alone, session-update-none,
  session-select-none,
}

-- Each session whose usable token passes the test is over, and each other one is as it was.
abbrev pub Ends : (RefreshToken → Bool) → TokenTable → TokenTable → Type 0
Ends p s s' =
    (g : String)
    → session g s'.rows
      ≡ (if any (λ r. p r && is_current g r) s.rows then none else session g s.rows)

module _ (p : RefreshToken → Bool) (g : String) where
  abbrev is_hit : RefreshToken → Bool
  is_hit r = p r && is_current g r

  no_hit : (rows : List RefreshToken) → session g rows ≡ none → any is_hit rows ≡ false
  no_hit [] h = refl
  no_hit (r ∷ rows) h = elim (Bool-cases (is_current g r)) [
    | inl on ↦ absurd (ground (arith, sym (session-hit g r rows on) ∙ h))
    | inr off ↦ ground (arith, off, no_hit rows (sym (session-miss g r rows off) ∙ h))
  ]

  session-revoked :
      (at : ℕ) (rows : List RefreshToken)
      → Pairwise AreCompatible rows
      → session g (update_where (λ r. p r && is_active r) (revoke_row at) rows)
        ≡ (if any is_hit rows then none else session g rows)
  session-revoked at [] d = refl
  session-revoked at (r ∷ rows) d =
      let fades = λ (x : RefreshToken). p x && is_active x in
      let after = update_where fades (revoke_row at) rows in
      let row : RefreshToken = if fades r then revoke_row at r else r in
      elim (Bool-cases (is_current g r)) [
        | inr off ↦ elim (Bool-cases (p r)) [
          | inl hit ↦
              let gone : is_current g row ≡ false = ground (arith, off, hit) in
              session-miss g row after gone ∙ rw (hit, off) (session-revoked at rows d.1)
          | inr miss ↦ rw (miss, off) (session-revoked at rows d.1)
        ]
        | inl on ↦ elim (Bool-cases (p r)) [
          | inl hit ↦
              let gone : is_current g row ≡ false = ground (arith, on, hit) in
              session-miss g row after gone
              ∙ rw (hit, on)
                  (session-update-none g fades (revoke_row at) rows (λ x. ground arith)
                    (session-alone g r rows on d.0))
          | inr miss ↦ rw (miss, on, no_hit rows (session-alone g r rows on d.0)) refl
        ]
      ]

  session-selected :
      (rows : List RefreshToken)
      → Pairwise AreCompatible rows
      → session g (select (λ r. not (p r)) rows)
        ≡ (if any is_hit rows then none else session g rows)
  session-selected [] d = refl
  session-selected (r ∷ rows) d =
      let kept = select (λ x. not (p x)) rows in
      elim (Bool-cases (is_current g r)) [
        | inr off ↦ elim (Bool-cases (p r)) [
          | inl hit ↦ rw (hit, off) (session-selected rows d.1)
          | inr miss ↦ rw (miss, off) (session-selected rows d.1)
        ]
        | inl on ↦ elim (Bool-cases (p r)) [
          | inl hit ↦ rw (hit, on) (session-select-none g _ rows (session-alone g r rows on d.0))
          | inr miss ↦ rw (miss, on, no_hit rows (session-alone g r rows on d.0)) refl
        ]
      ]

session-unparented :
    (p : RefreshToken → Bool) (g : String) (rows : List RefreshToken)
    → session g (update_where p unparented rows) ≡ session g rows
session-unparented p g [] = refl
session-unparented p g (r ∷ rows) = elim (Bool-cases (is_current g r)) [
  | inl on ↦ elim (Bool-cases (p r)) [ inl hit ↦ rw (hit, on) refl | inr miss ↦ rw (miss, on) refl ]
  | inr off ↦ elim (Bool-cases (p r)) [
    | inl hit ↦ rw (hit, off) (session-unparented p g rows)
    | inr miss ↦ rw (miss, off) (session-unparented p g rows)
  ]
]

pub revoke_where-Ends :
    (p : RefreshToken → Bool) (at : ℕ) (s : TokenTable)
    → IsValid s
    → Ends p s (revoke_where p at s).1
unfolding revoke_where
revoke_where-Ends p at s v g = session-revoked p g at s.rows v.distinct

pub cascade_user-Ends :
    (u : ℕ) (s : TokenTable) → IsValid s → Ends (is_of_user u) s (cascade_user u s)
unfolding cascade_user
cascade_user-Ends u s v g =
    session-unparented (is_child_of (select (is_of_user u) s.rows)) g
      (select (λ r. not (is_of_user u r)) s.rows)
    ∙ session-selected (is_of_user u) g s.rows v.distinct
