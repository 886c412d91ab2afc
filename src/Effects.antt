-- ===== src/Effects.antt =====
-- Methods that change a state and may raise. What was written before a raise stays written, so the
-- state comes back beside the error; `run_in_transaction` (apps/common/db.py) takes it back.
pub mod Continue
use django_ninja_rbac_authen.Prelude.{Bool, true, false}
use django_ninja_rbac_authen.Errors.{Error}

pub data Result {ℓ} (A : Type ℓ) : Type ℓ where
  ok : A → Result A
  err : Error → Result A

abbrev pub Action : Type 0 → Type 0 → Type 0
Action S A = S → Result A × S

module _ {S A : Type 0} where
  abbrev pub pure : A → Action S A
  pure a s = (ok a, s)

  abbrev pub raise : Error → Action S A
  raise e s = (err e, s)

  abbrev pub lift : Result A → Action S A
  lift r s = (r, s)

  abbrev pub gets : (S → A) → Action S A
  gets f s = (ok (f s), s)

  -- `_run_in_transaction`: a raise leaves the state as it was before the block.
  abbrev pub settle : S → Result A × S → Result A × S
  settle s (ok a, s') = (ok a, s')
  settle s (err e, s') = (err e, s)

  abbrev pub run_in_transaction : Action S A → Action S A
  run_in_transaction m s = settle s (m s)

module _ {S A B : Type 0} where
  abbrev pub continue : (A → Action S B) → Result A × S → Result B × S
  continue f (ok a, s) = f a s
  continue f (err e, s) = (err e, s)

  infixl 5 ◌>>=◌ ◌>>◌
  abbrev pub ◌>>=◌ : Action S A → (A → Action S B) → Action S B
  ◌>>=◌ m f s = continue f (m s)

  abbrev pub ◌>>◌ : Action S A → Action S B → Action S B
  m >> n = m >>= λ _. n

module _ {S A : Type 0} where
  -- `try: m except <classes>: handler`, where `caught` says which errors the clause names.
  abbrev pub handle : (Error → Bool) → (Error → Action S A) → Result A × S → Result A × S
  handle caught h (ok a, s) = (ok a, s)
  handle caught h (err e, s) = elim (caught e) [ true ↦ h e s | false ↦ (err e, s) ]

  abbrev pub try_except : Action S A → (Error → Bool) → (Error → Action S A) → Action S A
  try_except m caught h s = handle caught h (m s)

abbrev pub when : {S : Type 0} → Bool → Action S (Unit {0}) → Action S (Unit {0})
when true m = m
when false m = pure tt
