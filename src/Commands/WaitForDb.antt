-- ===== src/Commands/WaitForDb.antt =====
-- apps/common/management/commands/wait_for_db.py. Times are in microseconds.
pub mod Termination
use django_ninja_rbac_authen.Prelude.{
  ℕ, zero, suc, ◌+◌, ◌/◌, Bool, true, false, Option, none, some, ℤ, pos, negsuc, leb, ◌==◌,
  if◌then◌else◌,
}
use django_ninja_rbac_authen.Errors.{Error, command_error}
use django_ninja_rbac_authen.Effects.{Result, ok, err}

-- What the command meets: whether the database accepts its n-th attempt, and the n-th reading of
-- `monotonic()`.
pub record Surroundings : Type 0 where
  pub connects : ℕ → Bool
  pub monotonic : ℕ → ℕ

abbrev pub too_late : Error
too_late = command_error "Database did not become available before timeout."

module _ (x : Surroundings) where
  -- The loop from its n-th attempt on; the result is the number of the attempt that succeeded.
  unfoldable pub wait_loop : ℕ → ℕ → ℕ → Option (Result ℕ)
  wait_loop zero deadline n = none
  wait_loop (suc fuel) deadline n =
      let rest = wait_loop fuel deadline (suc n) in
      if x.connects n
      then some (ok n)
      else if leb deadline (x.monotonic (suc n))
      then some (err too_late)
      else rest

  -- `handle`; the loop gets as much fuel as sleeps fit into the timeout, and two more.
  unfoldable pub wait_for_db : ℤ → ℤ → Option (Result ℕ)
  unfolding wait_loop
  wait_for_db (negsuc _) interval = some (err (command_error "--timeout must be zero or greater"))
  wait_for_db (pos timeout) (negsuc _) =
      some (err (command_error "--interval must be greater than zero"))
  wait_for_db (pos timeout) (pos zero) =
      some (err (command_error "--interval must be greater than zero"))
  wait_for_db (pos timeout) (pos (suc i)) =
      wait_loop (suc (suc (timeout / suc i))) (x.monotonic 0 + timeout) 0
