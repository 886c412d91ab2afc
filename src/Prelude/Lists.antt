-- ===== src/Prelude/Lists.antt =====
-- Lists as tables of rows: the first row that passes a test, an update of the rows that pass it,
-- and predicates by recursion with their lemmas under these operations.
use Prim.Native.Nat.{ℕ, zero, suc, ◌+◌, ◌≤◌}
use mathlib.Core.Path.{◌≡◌, refl, ap, subst}
use mathlib.Core.Logic.{◌⊎◌, inl, inr}
use mathlib.Core.Bool.{Bool, true, false}
use mathlib.Core.Option.{Option, none, some}
use mathlib.Core.List.{List, [], ◌∷◌, ◌++◌}
use native.Mathlib.Omega.{arith}
use package.django_ninja_rbac_authen.Prelude.Tests.{if◌then◌else◌}

module _ {ℓ} {A : Type ℓ} where
  abbrev pub length : List A → ℕ
  length [] = 0
  length (x ∷ xs) = suc (length xs)

  abbrev pub take : ℕ → List A → List A
  take zero xs = []
  take (suc n) [] = []
  take (suc n) (x ∷ xs) = x ∷ take n xs

  abbrev pub drop : ℕ → List A → List A
  drop zero xs = xs
  drop (suc n) [] = []
  drop (suc n) (x ∷ xs) = drop n xs

  -- The first row that passes the test.
  abbrev pub find : (A → Bool) → List A → Option A
  find p [] = none
  find p (x ∷ xs) = if p x then some x else find p xs

  abbrev pub any : (A → Bool) → List A → Bool
  any p [] = false
  any p (x ∷ xs) = if p x then true else any p xs

  -- `filter(p)`
  abbrev pub select : (A → Bool) → List A → List A
  select p [] = []
  select p (x ∷ xs) = let rest = select p xs in if p x then x ∷ rest else rest

  -- `filter(p).update(f)`
  abbrev pub update_where : (A → Bool) → (A → A) → List A → List A
  update_where p f [] = []
  update_where p f (x ∷ xs) = (if p x then f x else x) ∷ update_where p f xs

  abbrev pub All {κ} : (A → Type κ) → List A → Type κ
  All P [] = Unit
  All P (x ∷ xs) = P x × All P xs

  -- Every row stands in the relation to every later row.
  abbrev pub Pairwise {κ} : (A → A → Type κ) → List A → Type κ
  Pairwise R [] = Unit
  Pairwise R (x ∷ xs) = All (R x) xs × Pairwise R xs

  pub length-append : (xs ys : List A) → length (xs ++ ys) ≡ length xs + length ys
  length-append [] ys = omega arith
  length-append (x ∷ xs) ys = omega (arith, length-append xs ys)

  pub length-update_where :
      (p : A → Bool) (f : A → A) (xs : List A) → length (update_where p f xs) ≡ length xs
  length-update_where p f [] = refl
  length-update_where p f (x ∷ xs) = ap suc (length-update_where p f xs)

  pub length-take : (n : ℕ) (xs : List A) → length (take n xs) ≤ n
  length-take zero xs = omega arith
  length-take (suc n) [] = omega arith
  length-take (suc n) (x ∷ xs) = omega (arith, length-take n xs)

  pub take-length_le : (n : ℕ) (xs : List A) → length xs ≤ n → take n xs ≡ xs
  take-length_le zero [] h = refl
  take-length_le (suc n) [] h = refl
  take-length_le zero (x ∷ xs) h = absurd (omega arith)
  take-length_le (suc n) (x ∷ xs) h = ap (λ ys. x ∷ ys) (take-length_le n xs (omega arith))

module _ {ℓ κ} {A : Type ℓ} where
  pub All-append : (P : A → Type κ) (xs ys : List A) → All P xs → All P ys → All P (xs ++ ys)
  All-append P [] ys h k = k
  All-append P (x ∷ xs) ys h k = (h.0, All-append P xs ys h.1 k)

  pub All-map {μ} :
      (P : A → Type κ) (Q : A → Type μ) (xs : List A) → ((a : A) → P a → Q a) → All P xs → All Q xs
  All-map P Q [] f h = tt
  All-map P Q (x ∷ xs) f h = (f x h.0, All-map P Q xs f h.1)

  pub All-of_forall : (P : A → Type κ) (xs : List A) → ((a : A) → P a) → All P xs
  All-of_forall P [] f = tt
  All-of_forall P (x ∷ xs) f = (f x, All-of_forall P xs f)

  pub All-select : (P : A → Type κ) (q : A → Bool) (xs : List A) → All P xs → All P (select q xs)
  All-select P q [] h = tt
  All-select P q (x ∷ xs) h =
      elim (q x) as (λ b. All P (if b then x ∷ select q xs else select q xs)) [
        | true ↦ (h.0, All-select P q xs h.1)
        | false ↦ All-select P q xs h.1
      ]

module _ {ℓ κ μ} {A : Type ℓ} where
  pub All-update_where :
      (P : A → Type κ) (Q : A → Type μ) (p : A → Bool) (f : A → A) (xs : List A)
      → ((a : A) → P a → Q (if p a then f a else a))
      → All P xs
      → All Q (update_where p f xs)
  All-update_where P Q p f [] g h = tt
  All-update_where P Q p f (x ∷ xs) g h = (g x h.0, All-update_where P Q p f xs g h.1)

module _ {ℓ κ} {A : Type ℓ} (R : A → A → Type κ) where
  pub Pairwise-update_where :
      (p : A → Bool) (f : A → A) (xs : List A)
      → ((a b : A) → R a b → R (if p a then f a else a) (if p b then f b else b))
      → Pairwise R xs
      → Pairwise R (update_where p f xs)
  Pairwise-update_where p f [] g h = tt
  Pairwise-update_where p f (x ∷ xs) g h = (
    All-update_where (R x) (R (if p x then f x else x)) p f xs (g x) h.0,
    Pairwise-update_where p f xs g h.1,
  )

  pub Pairwise-append_one :
      (xs : List A) (y : A) → Pairwise R xs → All (λ x. R x y) xs → Pairwise R (xs ++ y ∷ [])
  Pairwise-append_one [] y h k = (tt, tt)
  Pairwise-append_one (x ∷ xs) y h k =
      (All-append (R x) xs (y ∷ []) h.0 (k.0, tt), Pairwise-append_one xs y h.1 k.1)

  pub Pairwise-select : (q : A → Bool) (xs : List A) → Pairwise R xs → Pairwise R (select q xs)
  Pairwise-select q [] h = tt
  Pairwise-select q (x ∷ xs) h =
      elim (q x) as (λ b. Pairwise R (if b then x ∷ select q xs else select q xs)) [
        | true ↦ (All-select (R x) q xs h.0, Pairwise-select q xs h.1)
        | false ↦ Pairwise-select q xs h.1
      ]

module _ {ℓ} {A : Type ℓ} where
  pub find_step :
      (p : A → Bool) (y x : A) (rest : Option A)
      → (if p y then some y else rest) ≡ some x
      → ((p y ≡ true) × (y ≡ x)) ⊎ ((p y ≡ false) × (rest ≡ some x))
  find_step p y x rest h = ground arith

  -- A row that is found passes the test.
  pub find_test : (p : A → Bool) (xs : List A) (x : A) → find p xs ≡ some x → p x ≡ true
  find_test p [] x h = cc
  find_test p (y ∷ xs) x h = ground (arith, find_test p xs x)

  pub find-All {κ} :
      (P : A → Type κ) (p : A → Bool) (xs : List A) (x : A) → find p xs ≡ some x → All P xs → P x
  find-All P p [] x h a = absurd (cc)
  find-All P p (y ∷ xs) x h a = elim (find_step p y x (find p xs) h) [
    | inl (_, e) ↦ subst P e a.0
    | inr (_, e) ↦ find-All P p xs x e a.1
  ]

  -- No row passes the test where none is found.
  pub find-none : (p : A → Bool) (xs : List A) → find p xs ≡ none → All (λ x. p x ≡ false) xs
  find-none p [] h = tt
  find-none p (x ∷ xs) h = ground (arith, find-none p xs)

  pub any-false : (p : A → Bool) (xs : List A) → any p xs ≡ false → All (λ x. p x ≡ false) xs
  any-false p [] h = tt
  any-false p (x ∷ xs) h = ground (arith, any-false p xs)

  pub find-append_new :
      (p : A → Bool) (xs : List A) (y : A)
      → All (λ x. p x ≡ false) xs
      → p y ≡ true
      → find p (xs ++ y ∷ []) ≡ some y
  find-append_new p [] y h e = rw e
  find-append_new p (x ∷ xs) y h e = rw h.0 (find-append_new p xs y h.1 e)

  -- An update that leaves the test alone finds the same row, updated.
  pub find-update_where :
      (p q : A → Bool) (f : A → A) (xs : List A) (x : A)
      → ((a : A) → p (f a) ≡ p a)
      → find p xs ≡ some x
      → find p (update_where q f xs) ≡ some (if q x then f x else x)
  find-update_where p q f [] x k h = absurd (cc)
  find-update_where p q f (y ∷ xs) x k h = elim (find_step p y x (find p xs) h) [
    | inl (t, e) ↦ ground (arith, k y, ap q e, ap f e)
    | inr (t, e) ↦ ground (arith, k y, find-update_where p q f xs x k e)
  ]

  pub any-of_find : (p : A → Bool) (xs : List A) (x : A) → find p xs ≡ some x → any p xs ≡ true
  any-of_find p [] x h = absurd (cc)
  any-of_find p (y ∷ xs) x h = ground (arith, any-of_find p xs x)
