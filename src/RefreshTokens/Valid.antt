-- ===== src/RefreshTokens/Valid.antt =====
-- The invariant of the RefreshToken table, and that each repository operation keeps it.
use django_ninja_rbac_authen.Prelude.{
  ℕ, ◌+◌, ◌<◌, ◌≡◌, ◌≢◌, refl, ◌⊎◌, inl, inr, Bool, true, false, ◌&&◌, some, List, [], ◌∷◌, String,
  eq_iff, arith, ◌==◌, find, any, update_where, All, Pairwise, subst, ap, find_step, Bool-cases,
  if◌then◌else◌, All-append, All-map, All-update_where, Pairwise-update_where, Pairwise-append_one,
  find-All, any-false,
}
use django_ninja_rbac_authen.RefreshTokens.{
  RefreshToken, TokenTable, NewToken, has_hash, is_active, revoke_row, new_row, insert_token,
  revoke_where, acreate,
}

abbrev pub IsRevoked : RefreshToken → Type 0
IsRevoked t = is_active t ≡ false

-- Two rows of one table: other keys, other hashes, and not both active in one family.
abbrev pub AreCompatible : RefreshToken → RefreshToken → Type 0
AreCompatible r t =
    (r.id ≢ t.id)
    × (r.token_hash ≢ t.token_hash)
    × (is_active r ≡ true → is_active t ≡ true → r.family_id ≢ t.family_id)

pub record IsValid (s : TokenTable) : Type 0 where
  pub below : All (λ r. r.id < s.next_id) s.rows
  pub distinct : Pairwise AreCompatible s.rows

-- No token of the family can still be used.
abbrev pub IsFamilyRevoked : String → List RefreshToken → Type 0
IsFamilyRevoked family = All (λ r. r.family_id ≡ family → IsRevoked r)

module _ (p : RefreshToken → Bool) (at : ℕ) where
  abbrev revoked_by : RefreshToken → RefreshToken
  revoked_by r = if p r then revoke_row at r else r

  revoke-AreCompatible :
      (r t : RefreshToken) → AreCompatible r t → AreCompatible (revoked_by r) (revoked_by t)
  revoke-AreCompatible r t h = ground arith

  pub revoke-IsValid :
      (s : TokenTable)
      → IsValid s
      → IsValid (record s { rows = update_where p (revoke_row at) s.rows })
  revoke-IsValid s v = record {
    below =
        All-update_where (λ r. r.id < s.next_id) (λ r. r.id < s.next_id) p (revoke_row at) s.rows
          (λ r h. ground arith) v.below;
    distinct =
        Pairwise-update_where AreCompatible p (revoke_row at) s.rows revoke-AreCompatible
          v.distinct;
  }

pub revoke_where-IsValid :
    (p : RefreshToken → Bool) (at : ℕ) (s : TokenTable)
    → IsValid s
    → IsValid (revoke_where p at s).1
unfolding revoke_where
revoke_where-IsValid p at s = revoke-IsValid (λ t. p t && is_active t) at s

new_row-AreCompatible :
    (n : NewToken) (id : ℕ) (r : RefreshToken)
    → r.id < id
    → has_hash n.token_hash r ≡ false
    → (r.family_id ≡ n.family_id → IsRevoked r)
    → AreCompatible r (new_row id n)
new_row-AreCompatible n id r below other closed =
    (omega arith, ground (arith, eq_iff r.token_hash n.token_hash), λ a _ e. cc (closed e))

new_rows-AreCompatible :
    (n : NewToken) (id : ℕ) (rows : List RefreshToken)
    → All (λ r. r.id < id) rows
    → All (λ r. has_hash n.token_hash r ≡ false) rows
    → IsFamilyRevoked n.family_id rows
    → All (λ r. AreCompatible r (new_row id n)) rows
new_rows-AreCompatible n id [] b o c = tt
new_rows-AreCompatible n id (r ∷ rows) b o c =
    (new_row-AreCompatible n id r b.0 o.0 c.0, new_rows-AreCompatible n id rows b.1 o.1 c.1)

-- A new token keeps the invariant where its family has no active token.
pub insert_token-IsValid :
    (n : NewToken) (s : TokenTable)
    → IsValid s
    → IsFamilyRevoked n.family_id s.rows
    → IsValid (insert_token n s).1
unfolding insert_token
insert_token-IsValid n s v closed = elim (Bool-cases (any (has_hash n.token_hash) s.rows)) [
  | inl taken ↦ rw taken v
  | inr free ↦ rw free (record {
    below =
        All-append (λ r. r.id < s.next_id + 1) s.rows (new_row s.next_id n ∷ [])
          (All-map (λ r. r.id < s.next_id) (λ r. r.id < s.next_id + 1) s.rows (λ r h. omega arith)
            v.below)
          (omega arith, tt);
    distinct = Pairwise-append_one AreCompatible s.rows (new_row s.next_id n) v.distinct (
        new_rows-AreCompatible n s.next_id s.rows v.below
          (any-false (has_hash n.token_hash) s.rows free) closed);
  })
]

abbrev LeavesFamily : RefreshToken → ℕ → RefreshToken → Type 0
LeavesFamily t at r =
    (if r.id == t.id then revoke_row at r else r).family_id ≡ t.family_id
    → IsRevoked (if r.id == t.id then revoke_row at r else r)

LeavesFamily-of_compatible :
    (t : RefreshToken) (at : ℕ) (r : RefreshToken)
    → is_active t ≡ true
    → (AreCompatible t r ⊎ AreCompatible r t)
    → LeavesFamily t at r
LeavesFamily-of_compatible t at r a (inl c) = λ e. elim (Bool-cases (is_active r)) [
  | inl active ↦ absurd (c.2 a active (ground arith))
  | inr closed ↦ ground arith
]
LeavesFamily-of_compatible t at r a (inr c) = λ e. elim (Bool-cases (is_active r)) [
  | inl active ↦ absurd (c.2 active a (ground arith))
  | inr closed ↦ ground arith
]

LeavesFamily-self : (t : RefreshToken) (at : ℕ) (r : RefreshToken) → r ≡ t → LeavesFamily t at r
LeavesFamily-self t at r e = ground (arith, ap (λ (x : RefreshToken). x.id) e)

-- Once the row that was found is revoked by its key, its family has no active token left.
pub revoked_family :
    (h : String) (at : ℕ) (rows : List RefreshToken) (t : RefreshToken)
    → Pairwise AreCompatible rows
    → find (has_hash h) rows ≡ some t
    → is_active t ≡ true
    → IsFamilyRevoked t.family_id (update_where (λ r. r.id == t.id) (revoke_row at) rows)
revoked_family h at [] t d f a = absurd (cc)
revoked_family h at (r ∷ rows) t d f a =
    elim (find_step (has_hash h) r t (find (has_hash h) rows) f) [
      | inl (_, e) ↦ (
        LeavesFamily-self t at r e,
        All-update_where (AreCompatible t) (λ x. x.family_id ≡ t.family_id → IsRevoked x)
            (λ x. x.id == t.id) (revoke_row at) rows
            (λ x c. LeavesFamily-of_compatible t at x a (inl c))
            (subst (λ y. All (AreCompatible y) rows) e d.0),
      )
      | inr (_, f') ↦ (
        LeavesFamily-of_compatible t at r a
            (inr (find-All (AreCompatible r) (has_hash h) rows t f' d.0)),
        revoked_family h at rows t d.1 f' a,
      )
    ]

pub acreate-IsValid :
    (n : NewToken) (s : TokenTable)
    → IsValid s
    → IsFamilyRevoked n.family_id s.rows
    → IsValid (acreate n s).1
unfolding acreate
acreate-IsValid n s v closed = elim (Bool-cases (any (has_hash n.token_hash) s.rows)) [
  | inl taken ↦ rw taken v
  | inr free ↦
      rw free (subst IsValid (rw (insert_token, free) refl) (insert_token-IsValid n s v closed))
]
