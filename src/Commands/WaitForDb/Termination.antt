-- ===== src/Commands/WaitForDb/Termination.antt =====
-- The command ends, and how.
use native.Mathlib.Nat.{suc-mul, lt-div-mul-add}
use django_ninja_rbac_authen.Prelude.{
  ℕ, zero, suc, ◌+◌, ◌*◌, ◌/◌, ◌≤◌, ◌<◌, ◌≡◌, refl, ap, ◌∙◌, ◌⊎◌, inl, inr, true, false, Option,
  some, pos, leb, ◌==◌, arith, Bool-cases,
}
use django_ninja_rbac_authen.Effects.{Result, ok, err}
use django_ninja_rbac_authen.Commands.WaitForDb.{Surroundings, too_late, wait_loop, wait_for_db}

module _ (x : Surroundings) where
  -- Every sleep lasts for the interval at least.
  abbrev pub IsTicking : ℕ → Type 0
  IsTicking interval =
      (x.monotonic 0 ≤ x.monotonic 1)
      × ((n : ℕ) → x.monotonic (suc n) + interval ≤ x.monotonic (suc (suc n)))

  -- The command ends with its n-th attempt, all earlier ones having failed.
  abbrev pub EndsWith : ℕ → ℕ → ℕ → Option (Result ℕ) → Type 0
  EndsWith first deadline n r =
      ((k : ℕ) → first ≤ k → k < n → x.connects k ≡ false)
      × (((x.connects n ≡ true) × (r ≡ some (ok n)))
          ⊎ ((x.connects n ≡ false) × (deadline ≤ x.monotonic (suc n)) × (r ≡ some (err too_late))))

  -- One attempt ends the loop, or it failed in time.
  attempt :
      (deadline fuel n : ℕ)
      → EndsWith n deadline n (wait_loop x (suc fuel) deadline n)
        ⊎ ((x.connects n ≡ false) × (leb deadline (x.monotonic (suc n)) ≡ false))
  unfolding wait_loop
  attempt deadline fuel n = elim (Bool-cases (x.connects n)) [
    | inl up ↦ inl ((λ k a b. absurd (omega (arith, a, b))), inl (up, rw up refl))
    | inr down ↦ elim (Bool-cases (leb deadline (x.monotonic (suc n)))) [
      | inl late ↦ inl (
        (λ k a b. absurd (omega (arith, a, b))),
        inr (down, ground (arith, late), rw (down, late) refl),
      )
      | inr early ↦ inr (down, early)
    ]
  ]

  earlier_failed :
      (n m : ℕ)
      → x.connects n ≡ false
      → ((k : ℕ) → suc n ≤ k → k < m → x.connects k ≡ false)
      → (k : ℕ) → n ≤ k
      → k < m
      → x.connects k ≡ false
  earlier_failed n m down later k a b = elim (Bool-cases (k == n)) [
    | inl same ↦ ap x.connects (ground (arith, same)) ∙ down
    | inr other ↦ later k (ground (arith, a, other)) b
  ]

  wait_loop-ends :
      (interval deadline fuel n : ℕ)
      → IsTicking interval
      → deadline ≤ x.monotonic (suc n) + fuel * interval
      → (m : ℕ) × (m ≤ n + fuel) × EndsWith n deadline m (wait_loop x (suc fuel) deadline n)
  wait_loop-ends interval deadline zero n tick reach = elim (attempt deadline zero n) [
    | inl ends ↦ (n, omega arith, ends)
    | inr (_, early) ↦ absurd (ground (arith, reach, early))
  ]
  wait_loop-ends interval deadline (suc fuel) n tick reach = elim (attempt deadline (suc fuel) n) [
    | inl ends ↦ (n, omega arith, ends)
    | inr (down, early) ↦
        let (m, bound, (failed, how)) =
          wait_loop-ends interval deadline fuel (suc n) tick
            (omega (arith, reach, tick.1 n, suc-mul fuel interval)) in
        let same : wait_loop x (suc (suc fuel)) deadline n
            ≡ wait_loop x (suc fuel) deadline (suc n) =
          unfold wait_loop in rw (down, early) refl in
        (m, omega (arith, bound), (earlier_failed n m down failed, rw same how))
  ]

  -- With a timeout of zero or more, an interval above zero and a clock that shows it when a sleep
  -- is over, the command ends after as many attempts as sleeps fit into the timeout, and two more,
  -- at the latest: at the first attempt that succeeds, or with an error once the deadline is
  -- reached and every attempt has failed.
  pub wait_for_db_ends :
      (timeout i : ℕ)
      → IsTicking (suc i)
      → (n : ℕ) × (n ≤ suc (timeout / suc i))
        × EndsWith 0 (x.monotonic 0 + timeout) n (wait_for_db x (pos timeout) (pos (suc i)))
  unfolding wait_for_db
  wait_for_db_ends timeout i tick =
      let q : ℕ = timeout / suc i in
      let fits : timeout < suc q * suc i = rw (suc-mul q (suc i)) (lt-div-mul-add (omega arith)) in
      let (n, bound, ends) =
        wait_loop-ends (suc i) (x.monotonic 0 + timeout) (suc q) 0 tick
          (omega (arith, tick.0, fits)) in
      (n, omega (arith, bound), ends)
