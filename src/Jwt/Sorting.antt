-- ===== src/Jwt/Sorting.antt =====
-- `sorted(set(values))` keeps exactly the members.
use django_ninja_rbac_authen.Prelude.{
  ◌≡◌, refl, Bool, true, List, [], ◌∷◌, String, str_eq, eq_iff, arith, any, if◌then◌else◌, inl, inr,
  Bool-cases,
}
use django_ninja_rbac_authen.Jwt.{is_before, insert_sorted, sorted_set}

-- `value in values`
abbrev pub contains : String → List String → Bool
contains s = any (λ t. str_eq t s)

contains-insert_sorted :
    (s x : String) (ts : List String)
    → contains s (insert_sorted x ts) ≡ (if str_eq x s then true else contains s ts)
unfolding insert_sorted
contains-insert_sorted s x [] = refl
contains-insert_sorted s x (t ∷ ts) = elim (Bool-cases (str_eq x t)) [
  | inl e ↦ rw e (ground (arith, eq_iff x t, eq_iff x s, eq_iff t s))
  | inr e ↦ elim (Bool-cases (is_before t x)) [
    | inl b ↦ rw (e, b) (ground (arith, contains-insert_sorted s x ts))
    | inr b ↦ rw (e, b) refl
  ]
]

-- Sorting a set neither loses a member nor adds one.
pub contains-sorted_set :
    (s : String) (ss : List String) → contains s (sorted_set ss) ≡ contains s ss
unfolding sorted_set
contains-sorted_set s [] = refl
contains-sorted_set s (t ∷ ts) =
    rw (contains-insert_sorted s t (sorted_set ts), contains-sorted_set s ts) refl
