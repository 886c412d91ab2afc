-- ===== src/RefreshTokens/History.antt =====
-- Concurrent requests reach the RefreshToken table as a sequence of atomic operations. What every
-- such sequence keeps.
use django_ninja_rbac_authen.Prelude.{
  ℕ, ◌<◌, Bool, not, List, [], ◌∷◌, String, arith, select, All-update_where, All-select,
  Pairwise-update_where, Pairwise-select,
}
use django_ninja_rbac_authen.RefreshTokens.{
  TokenTable, NewToken, Rotation, acreate, arevoke, arevoke_family, arevoke_user, arotate,
  cascade_user, is_child_of, is_of_user, unparented, replacement_of,
}
use django_ninja_rbac_authen.RefreshTokens.Cases.{
  RotationReply, RotateCase, absent, replayed, outlived, stolen, collides, rotates, consumed,
  rotate_cases,
}
use django_ninja_rbac_authen.RefreshTokens.Valid.{
  AreCompatible, IsValid, IsFamilyRevoked, revoke-IsValid, revoke_where-IsValid,
  insert_token-IsValid, acreate-IsValid, revoked_family,
}

-- The operations that write to the table; `delete_user` is what deleting a user does to it.
pub data Operation : Type 0 where
  create : NewToken → Operation
  revoke : ℕ → ℕ → Operation
  revoke_family : String → ℕ → Operation
  revoke_user : ℕ → ℕ → Operation
  rotate : Rotation → Operation
  delete_user : ℕ → Operation

unfoldable pub apply : Bool → Operation → TokenTable → TokenTable
apply bind (create n) s = (acreate n s).1
apply bind (revoke id at) s = (arevoke id at s).1
apply bind (revoke_family f at) s = (arevoke_family f at s).1
apply bind (revoke_user u at) s = (arevoke_user u at s).1
apply bind (rotate a) s = (arotate bind a s).1
apply bind (delete_user u) s = cascade_user u s

unfoldable pub run : Bool → List Operation → TokenTable → TokenTable
run bind [] s = s
run bind (o ∷ os) s = run bind os (apply bind o s)

-- A login starts a family with a new UUID: no token of that family is active.
abbrev pub IsAdmissible : Operation → TokenTable → Type 0
IsAdmissible (create n) s = IsFamilyRevoked n.family_id s.rows
IsAdmissible _ s = Unit

abbrev pub AreAdmissible : Bool → List Operation → TokenTable → Type 0
AreAdmissible bind [] s = Unit
AreAdmissible bind (o ∷ os) s = IsAdmissible o s × AreAdmissible bind os (apply bind o s)

cascade_user-IsValid : (u : ℕ) (s : TokenTable) → IsValid s → IsValid (cascade_user u s)
unfolding cascade_user
cascade_user-IsValid u s v =
    let orphaned = is_child_of (select (is_of_user u) s.rows) in
    let kept = select (λ t. not (is_of_user u t)) s.rows in
    record {
      below =
          All-update_where (λ r. r.id < s.next_id) (λ r. r.id < s.next_id) orphaned unparented kept
            (λ r h. ground arith)
            (All-select (λ r. r.id < s.next_id) (λ t. not (is_of_user u t)) s.rows v.below);
      distinct =
          Pairwise-update_where AreCompatible orphaned unparented kept (λ r t h. ground arith)
            (Pairwise-select AreCompatible (λ t. not (is_of_user u t)) s.rows v.distinct);
    }

rotate-IsValid :
    (bind : Bool) (a : Rotation) (s : TokenTable) (r : RotationReply)
    → IsValid s
    → RotateCase bind a s r
    → IsValid r.1
rotate-IsValid bind a s r v (absent _ e) = rw e v
rotate-IsValid bind a s r v (replayed t _ _ e) = rw e (revoke_where-IsValid _ _ s v)
rotate-IsValid bind a s r v (outlived _ _ _ _ e) = rw e v
rotate-IsValid bind a s r v (stolen t _ _ _ _ e) = rw e (revoke_where-IsValid _ _ s v)
rotate-IsValid bind a s r v (collides _ _ _ e) = rw e v
rotate-IsValid bind a s r v (rotates t f active _ _ _ e) = rw e (
    insert_token-IsValid (replacement_of a t) (consumed bind a s t) (revoke-IsValid _ _ s v)
      (revoked_family a.token_hash a.rotated_at s.rows t v.distinct f active))

pub apply-IsValid :
    (bind : Bool) (o : Operation) (s : TokenTable)
    → IsAdmissible o s
    → IsValid s
    → IsValid (apply bind o s)
unfolding apply
apply-IsValid bind (create n) s ad v = acreate-IsValid n s v ad
apply-IsValid bind (revoke id at) s ad v = unfold arevoke in revoke_where-IsValid _ at s v
apply-IsValid bind (revoke_family f at) s ad v =
    unfold arevoke_family in revoke_where-IsValid _ at s v
apply-IsValid bind (revoke_user u at) s ad v = unfold arevoke_user in revoke_where-IsValid _ at s v
apply-IsValid bind (rotate a) s ad v = rotate-IsValid bind a s _ v (rotate_cases bind a s)
apply-IsValid bind (delete_user u) s ad v = cascade_user-IsValid u s v

-- From a valid table, every sequence of operations, in which a token is only created in a family that
-- has no active token, leads to a valid table: keys below the sequence, unique keys, unique hashes, one
-- active token in a family at most.
pub run-IsValid :
    (bind : Bool) (os : List Operation) (s : TokenTable)
    → IsValid s
    → AreAdmissible bind os s
    → IsValid (run bind os s)
unfolding run
run-IsValid bind [] s v ad = v
run-IsValid bind (o ∷ os) s v ad =
    run-IsValid bind os (apply bind o s) (apply-IsValid bind o s ad.0 v) ad.1
