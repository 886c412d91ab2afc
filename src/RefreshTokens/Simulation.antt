-- ===== src/RefreshTokens/Simulation.antt =====
-- Sequences of operations on the RefreshToken table, and what each operation of them does to the
-- sessions.
use django_ninja_rbac_authen.Prelude.{◌≡◌, ◌⊎◌, true, false, none, some, str_eq, ◌==◌, any}
use django_ninja_rbac_authen.RefreshTokens.{TokenTable, Outcome, has_hash}
use django_ninja_rbac_authen.RefreshTokens.History.{
  Operation, create, revoke, revoke_family, revoke_user, rotate, delete_user,
}
use django_ninja_rbac_authen.RefreshTokens.Endings.{Ends}
use django_ninja_rbac_authen.RefreshTokens.Refinement.{
  sessions_of, SameBut, Unchanged, RotatesSessions,
}

-- What an operation does to the sessions of a table: a creation opens the session of its family, which
-- was closed, unless its hash is taken; a revocation or a deletion ends exactly the sessions whose
-- usable token is among the rows that it names; a rotation has the effect of one of its outcomes, unless
-- the hash of its replacement is taken.
abbrev pub Steps : Operation → TokenTable → TokenTable → Type 0
Steps (create n) s s' =
    ((any (has_hash n.token_hash) s.rows ≡ true) × Unchanged s s')
    ⊎ ((any (has_hash n.token_hash) s.rows ≡ false)
        × (sessions_of s n.family_id ≡ none)
        × (sessions_of s' n.family_id ≡ some n.token_hash)
        × SameBut n.family_id (sessions_of s) (sessions_of s'))
Steps (revoke id at) s s' = Ends (λ r. r.id == id) s s'
Steps (revoke_family f at) s s' = Ends (λ r. str_eq r.family_id f) s s'
Steps (revoke_user u at) s s' = Ends (λ r. r.user_id == u) s s'
Steps (rotate a) s s' =
    ((o : Outcome) × RotatesSessions a o s s')
    ⊎ ((any (has_hash a.replacement_hash) s.rows ≡ true) × Unchanged s s')
Steps (delete_user u) s s' = Ends (λ r. r.user_id == u) s s'
