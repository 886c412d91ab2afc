-- ===== src/Decimal/Digits.antt =====
-- The decimal text of a number, for readers that take digits only.
use Prim.Native.Char.{Char, code}
use Prim.Native.String as Text
use django_ninja_rbac_authen.Prelude.{
  ℕ, zero, suc, ◌+◌, ◌-◌, ◌*◌, ◌/◌, ◌%◌, ◌<◌, ◌≡◌, refl, ap, ◌∙◌, inl, inr, true, false, Option,
  none, some, String, arith, ltb, ◌==◌, if◌then◌else◌, Bool-cases,
}
use django_ninja_rbac_authen.Decimal.{
  digit_char, str_from, str_of, is_digit, digit_code, digit_char-is_digit,
}

-- The number that a text of digits stands for, behind digits that are read already.
unfoldable pub digits_value : ℕ → String → Option ℕ
digits_value n Text.[] = some n
digits_value n (Text.◌∷◌ c s) =
    let rest = digits_value (n * 10 + (code c - 48)) s in if is_digit (code c) then rest else none

digits_value-digit :
    (n d : ℕ) (s : String)
    → d < 10
    → digits_value n (Text.◌∷◌ (digit_char d) s) ≡ digits_value (n * 10 + d) s
unfolding digits_value
digits_value-digit n d s h =
    rw (digit_char-is_digit d h, digit_code d h)
      (ap (λ k. digits_value (n * 10 + k) s) (omega arith))

digits_value-str_from :
    (f n : ℕ) (s : String) → n < f → digits_value 0 (str_from f n s) ≡ digits_value n s
unfolding str_from
digits_value-str_from zero n s h = absurd (omega arith)
digits_value-str_from (suc f) n s h = elim (Bool-cases (ltb n 10)) [
  | inl small ↦
      rw small (digits_value-digit 0 n s (ground arith) ∙ ap (λ k. digits_value k s) (omega arith))
  | inr big ↦ rw big (
      digits_value-str_from f (n / 10) (Text.◌∷◌ (digit_char (n % 10)) s) (ground arith)
      ∙ digits_value-digit (n / 10) (n % 10) s (omega arith)
      ∙ ap (λ k. digits_value k s) (omega arith))
]

pub digits_value-str_of : (n : ℕ) → digits_value 0 (str_of n) ≡ some n
unfolding str_of digits_value
digits_value-str_of n = digits_value-str_from (suc n) n "" (omega arith)

-- A digit other than zero stands first.
abbrev pub StartsWithNonzero : String → Type 0
StartsWithNonzero t =
    (c : Char) × (s : String) × (t ≡ Text.◌∷◌ c s)
    × (is_digit (code c) ≡ true)
    × ((code c == 48) ≡ false)

str_from-StartsWithNonzero :
    (f n : ℕ) (s : String) → n < f → 0 < n → StartsWithNonzero (str_from f n s)
unfolding str_from
str_from-StartsWithNonzero zero n s h pos = absurd (omega arith)
str_from-StartsWithNonzero (suc f) n s h pos = elim (Bool-cases (ltb n 10)) [
  | inl small ↦ rw small (
    digit_char n,
    s,
    refl,
    digit_char-is_digit n (ground arith),
    rw (digit_code n (ground arith)) (ground arith),
  )
  | inr big ↦ rw big (
      str_from-StartsWithNonzero f (n / 10) (Text.◌∷◌ (digit_char (n % 10)) s) (ground arith)
        (ground arith))
]

pub str_of-StartsWithNonzero : (n : ℕ) → 0 < n → StartsWithNonzero (str_of n)
unfolding str_of
str_of-StartsWithNonzero n pos = str_from-StartsWithNonzero (suc n) n "" (omega arith) pos
