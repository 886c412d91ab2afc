-- ===== src/Effects/Continue.antt =====
-- A `do` block behind a step whose result is known.
use django_ninja_rbac_authen.Prelude.{◌≡◌, refl, ap, arith}
use django_ninja_rbac_authen.Errors.{Error}
use django_ninja_rbac_authen.Effects.{Result, Action, ok, err, continue}

module _ {S A B : Type 0} (f : A → Action S B) where
  pub continue-done : (r : Result A × S) (a : A) → r.0 ≡ ok a → continue f r ≡ f a r.1
  continue-done (ok b, s) a h = ap (λ x. f x s) (ground (arith, h))
  continue-done (err e, s) a h = absurd (ground (arith, h))

  pub continue-failed : (r : Result A × S) (e : Error) → r.0 ≡ err e → continue f r ≡ (err e, r.1)
  continue-failed (ok b, s) e h = absurd (ground (arith, h))
  continue-failed (err e', s) e h = ap (λ x. (err x, s)) (ground (arith, h))

  -- A block that ends well has come to an end of its first step that it went on from.
  pub continue-ok :
      (r : Result A × S) (b : B) (s' : S)
      → continue f r ≡ (ok b, s')
      → (a : A) × (s : S) × (r ≡ (ok a, s)) × (f a s ≡ (ok b, s'))
  continue-ok (ok a, s) b s' h = (a, s, refl, h)
  continue-ok (err x, s) b s' h = absurd (ground (arith, h))
