-- ===== src/Prelude/Apart.antt =====
-- Two rows of a table that different tests find.
use mathlib.Core.Path.{◌≡◌, subst}
use mathlib.Core.Logic.{inl, inr}
use mathlib.Core.Bool.{Bool, true, false}
use mathlib.Core.Option.{some}
use mathlib.Core.List.{List, [], ◌∷◌}
use package.django_ninja_rbac_authen.Prelude.Lists.{find, find_step, find-All, Pairwise}

module _ {ℓ κ} {A : Type ℓ} (R : A → A → Type κ) (symmetric : (a b : A) → R a b → R b a) where
  -- Rows that stand in a relation pairwise stand in it if no row passes both tests.
  pub Pairwise-find :
      (p q : A → Bool) (xs : List A) (x y : A)
      → ((a : A) → p a ≡ true → q a ≡ false)
      → Pairwise R xs
      → find p xs ≡ some x
      → find q xs ≡ some y
      → R x y
  Pairwise-find p q [] x y ne far h k = absurd (cc)
  Pairwise-find p q (a ∷ xs) x y ne far h k = elim (find_step p a x (find p xs) h) [
    | inl (t, is_x) ↦ elim (find_step q a y (find q xs) k) [
      | inl (t', _) ↦ absurd (cc (ne a t))
      | inr (_, k') ↦ subst (λ b. R b y) is_x (find-All (R a) q xs y k' far.0)
    ]
    | inr (_, h') ↦ elim (find_step q a y (find q xs) k) [
      | inl (_, is_y) ↦ subst (R x) is_y (symmetric a x (find-All (R a) p xs x h' far.0))
      | inr (_, k') ↦ Pairwise-find p q xs x y ne far.1 h' k'
    ]
  ]
