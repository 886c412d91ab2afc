-- ===== src/Prelude/Any.antt =====
-- Lemmas on `any`, the test whether some row of a table passes.
use mathlib.Core.Path.{◌≡◌, refl, ap}
use mathlib.Core.Logic.{inl, inr}
use mathlib.Core.Bool.{Bool, true, false, ◌&&◌, ◌||◌}
use mathlib.Core.Option.{some}
use mathlib.Core.List.{List, [], ◌∷◌, ◌++◌}
use native.Mathlib.Omega.{arith}
use package.django_ninja_rbac_authen.Prelude.Tests.{Bool-cases}
use package.django_ninja_rbac_authen.Prelude.Lists.{any, find, All}

module _ {ℓ} {A : Type ℓ} where
  pub any-none : (p : A → Bool) (xs : List A) → All (λ x. p x ≡ false) xs → any p xs ≡ false
  any-none p [] h = refl
  any-none p (x ∷ xs) h = ground (arith, any-none p xs h.1)

  -- Tests that agree on every row agree on the table.
  pub any_if : (p q : A → Bool) (xs : List A) → ((a : A) → p a ≡ q a) → any p xs ≡ any q xs
  any_if p q [] h = refl
  any_if p q (x ∷ xs) h = rw (h x, any_if p q xs h) refl

  pub any_mono :
      (p q : A → Bool) (xs : List A)
      → ((a : A) → p a ≡ true → q a ≡ true)
      → any p xs ≡ true
      → any q xs ≡ true
  any_mono p q [] f h = cc
  any_mono p q (x ∷ xs) f h = elim (Bool-cases (p x)) [
    | inl e ↦ rw (f x e) refl
    | inr e ↦ elim (Bool-cases (q x)) [
      | inl k ↦ rw k refl
      | inr k ↦ rw k (any_mono p q xs f (rw e at h))
    ]
  ]

  pub any_or : (p q : A → Bool) (xs : List A) → any (λ x. p x || q x) xs ≡ (any p xs || any q xs)
  any_or p q [] = refl
  any_or p q (x ∷ xs) = ground (arith, any_or p q xs)

  pub any_guard : (b : Bool) (p : A → Bool) (xs : List A) → any (λ x. b && p x) xs ≡ (b && any p xs)
  any_guard true p xs = refl
  any_guard false p [] = refl
  any_guard false p (x ∷ xs) = any_guard false p xs

  pub any-append_one :
      (p : A → Bool) (xs : List A) (y : A) → any p (xs ++ y ∷ []) ≡ (any p xs || p y)
  any-append_one p [] y = ground arith
  any-append_one p (x ∷ xs) y = ground (arith, any-append_one p xs y)

  pub any-append_last :
      (p : A → Bool) (xs : List A) (y : A) → p y ≡ true → any p (xs ++ y ∷ []) ≡ true
  any-append_last p xs y h = ground (arith, any-append_one p xs y)

  pub any-append_left : (p : A → Bool) (xs ys : List A) → any p xs ≡ true → any p (xs ++ ys) ≡ true
  any-append_left p [] ys h = cc
  any-append_left p (x ∷ xs) ys h = ground (arith, any-append_left p xs ys)

  pub any-of_find-some :
      (p q : A → Bool) (xs : List A) (x : A) → find p xs ≡ some x → q x ≡ true → any q xs ≡ true
  any-of_find-some p q [] x h k = absurd (cc)
  any-of_find-some p q (y ∷ xs) x h k = ground (arith, any-of_find-some p q xs x, ap q)
