-- ===== src/Decimal/Size.antt =====
-- How many digits the decimal text of a number has.
use Prim.Native.String as Text
use django_ninja_rbac_authen.Prelude.{
  ℕ, zero, suc, ◌+◌, ◌*◌, ◌/◌, ◌%◌, ◌≤◌, ◌<◌, inl, inr, String, arith, size, ltb, Bool-cases,
}
use django_ninja_rbac_authen.Decimal.{digit_char, str_from, str_of}

-- Ten to the power of a number and one.
limit : ℕ → ℕ
limit zero = 10
limit (suc k) = limit k * 10

size-str_from :
    (f n k : ℕ) (rest : String) → n < limit k → size (str_from f n rest) ≤ size rest + suc k
unfolding str_from limit
size-str_from zero n k rest h = omega arith
size-str_from (suc f) n zero rest h = elim (Bool-cases (ltb n 10)) [
  | inl small ↦ rw small (omega arith)
  | inr big ↦ absurd (ground arith)
]
size-str_from (suc f) n (suc k) rest h = elim (Bool-cases (ltb n 10)) [
  | inl small ↦ rw small (omega arith)
  | inr big ↦ rw big (
      omega (arith, size-str_from f (n / 10) k (Text.◌∷◌ (digit_char (n % 10)) rest) (omega arith)))
]

-- The key of a row has at most 19 digits.
pub size-str_of : (n : ℕ) → n < 9223372036854775808 → size (str_of n) ≤ 19
unfolding str_of limit
size-str_of n h = size-str_from (suc n) n 18 "" (omega arith)
