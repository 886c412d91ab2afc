-- ===== src/Decimal.antt =====
-- Python's `str(n)` of a number and `int(s)` of a text, which the code uses for the `sub` claim and
-- for the keys and values that it keeps in Redis. `int` strips white space, takes a sign, and allows
-- one underscore between two digits; digits other than 0 to 9 and the limit on the number of digits
-- are left out.
pub mod Digits
pub mod Size
use Prim.Native.Char.{Char, code}
use Prim.Native.String as Text
use django_ninja_rbac_authen.Prelude.{
  ℕ, zero, suc, ◌+◌, ◌-◌, ◌*◌, ◌/◌, ◌%◌, ◌<◌, ◌≡◌, ◌≢◌, refl, ap, ◌∙◌, inl, inr, Bool, true, ◌&&◌,
  ◌||◌, Option, none, some, String, arith, ltb, leb, ◌==◌, if◌then◌else◌, Bool-cases, ℤ, pos,
  negsuc,
}

digit_char : ℕ → Char
digit_char zero = "0"
digit_char (suc zero) = "1"
digit_char (suc (suc zero)) = "2"
digit_char (suc (suc (suc zero))) = "3"
digit_char (suc (suc (suc (suc zero)))) = "4"
digit_char (suc (suc (suc (suc (suc zero))))) = "5"
digit_char (suc (suc (suc (suc (suc (suc zero)))))) = "6"
digit_char (suc (suc (suc (suc (suc (suc (suc zero))))))) = "7"
digit_char (suc (suc (suc (suc (suc (suc (suc (suc zero)))))))) = "8"
digit_char _ = "9"

-- The digits of a number in front of a text, with fuel: each step divides by ten.
str_from : ℕ → ℕ → String → String
str_from zero n rest = rest
str_from (suc f) n rest =
    let more = str_from f (n / 10) (Text.◌∷◌ (digit_char (n % 10)) rest) in
    if ltb n 10 then Text.◌∷◌ (digit_char n) rest else more

-- `str(n)`
unfoldable pub str_of : ℕ → String
unfolding str_from digit_char
str_of n = str_from (suc n) n ""

unfoldable pub is_space : ℕ → Bool
is_space c =
    (leb 9 c && leb c 13)
    || (leb 28 c && leb c 32)
    || c == 133
    || c == 160
    || c == 5760
    || (leb 8192 c && leb c 8202)
    || c == 8232
    || c == 8233
    || c == 8239
    || c == 8287
    || c == 12288

unfoldable pub is_digit : ℕ → Bool
is_digit c = leb 48 c && leb c 57

-- Where a scan of the digits stands: before a digit, behind one, or in the space at the end.
pub data State : Type 0 where
  first after space : State

step : State → ℕ → ℕ → Option (State × ℕ)
unfolding is_space is_digit
step first acc c = if is_digit c then some (after, acc * 10 + (c - 48)) else none
step after acc c =
    if is_digit c
    then some (after, acc * 10 + (c - 48))
    else if c == 95
    then some (first, acc)
    else if is_space c
    then some (space, acc)
    else none
step space acc c = if is_space c then some (space, acc) else none

abbrev at_end : State → ℕ → Option ℕ
at_end first acc = none
at_end _ acc = some acc

-- One recursive call, on the rest of the text.
scan : State → ℕ → String → Option ℕ
unfolding step
scan st acc Text.[] = at_end st acc
scan st acc (Text.◌∷◌ c s) = elim (step st acc (code c)) [
  | none ↦ none
  | some (st', n) ↦ scan st' n s
]

abbrev negated : ℕ → ℤ
negated zero = pos 0
negated (suc n) = negsuc n

unsigned : String → Option ℤ
unfolding scan
unsigned s = elim (scan first 0 s) [ none ↦ none | some n ↦ some (pos n) ]

signed : String → Option ℤ
unfolding scan
signed s = elim (scan first 0 s) [ none ↦ none | some n ↦ some (negated n) ]

-- `int(s)`; `none` is its `ValueError`.
unfoldable pub int_of : String → Option ℤ
unfolding unsigned signed
int_of Text.[] = none
int_of (Text.◌∷◌ c s) =
    let later = int_of s in
    if is_space (code c)
    then later
    else if code c == 45
    then signed s
    else if code c == 43
    then unsigned s
    else unsigned (Text.◌∷◌ c s)

int_of_tests :
    (int_of " -1_0 " ≡ some (negsuc 9))
    × (int_of "7_" ≡ none)
    × (int_of "+07" ≡ some (pos 7))
    × (int_of (str_of 4096) ≡ some (pos 4096))
    × (int_of (str_of 0) ≡ some (pos 0))
unfolding int_of str_of
int_of_tests = (refl, refl, refl, refl, refl)

digit_code : (d : ℕ) → d < 10 → code (digit_char d) ≡ 48 + d
unfolding digit_char
digit_code zero h = refl
digit_code (suc zero) h = refl
digit_code (suc (suc zero)) h = refl
digit_code (suc (suc (suc zero))) h = refl
digit_code (suc (suc (suc (suc zero)))) h = refl
digit_code (suc (suc (suc (suc (suc zero))))) h = refl
digit_code (suc (suc (suc (suc (suc (suc zero)))))) h = refl
digit_code (suc (suc (suc (suc (suc (suc (suc zero))))))) h = refl
digit_code (suc (suc (suc (suc (suc (suc (suc (suc zero)))))))) h = refl
digit_code (suc (suc (suc (suc (suc (suc (suc (suc (suc zero))))))))) h = refl
digit_code (suc (suc (suc (suc (suc (suc (suc (suc (suc (suc n)))))))))) h = absurd (omega arith)

step_digit :
    (st : State) (acc d : ℕ)
    → d < 10
    → st ≢ space
    → step st acc (48 + d) ≡ some (after, acc * 10 + d)
unfolding step
step_digit first acc d h ne = ground arith
step_digit after acc d h ne = ground arith
step_digit space acc d h ne = absurd (ne refl)

scan-step :
    (st st' : State) (acc n : ℕ) (c : Char) (s : String)
    → step st acc (code c) ≡ some (st', n)
    → scan st acc (Text.◌∷◌ c s) ≡ scan st' n s
unfolding scan
scan-step st st' acc n c s e = rw (e, scan) refl

scan_digit :
    (st : State) (acc d : ℕ) (rest : String)
    → d < 10
    → st ≢ space
    → scan st acc (Text.◌∷◌ (digit_char d) rest) ≡ scan after (acc * 10 + d) rest
scan_digit st acc d rest h ne =
    scan-step st after acc (acc * 10 + d) (digit_char d) rest
      (rw (digit_code d h) (step_digit st acc d h ne))

scan-str_from :
    (f n : ℕ) (rest : String) → n < f → scan first 0 (str_from f n rest) ≡ scan after n rest
unfolding str_from
scan-str_from zero n rest h = absurd (omega arith)
scan-str_from (suc f) n rest h = elim (Bool-cases (ltb n 10)) [
  | inl small ↦ rw small (
      scan_digit first 0 n rest (ground arith) (λ e. cc)
      ∙ ap (λ k. scan after k rest) (omega arith))
  | inr big ↦ rw big (
      scan-str_from f (n / 10) (Text.◌∷◌ (digit_char (n % 10)) rest) (ground arith)
      ∙ scan_digit after (n / 10) (n % 10) rest (omega arith) (λ e. cc)
      ∙ ap (λ k. scan after k rest) (omega arith))
]

StartsWithDigit : String → Type 0
StartsWithDigit t = (c : Char) × (s : String) × (t ≡ Text.◌∷◌ c s) × (is_digit (code c) ≡ true)

digit_char-is_digit : (d : ℕ) → d < 10 → is_digit (code (digit_char d)) ≡ true
unfolding is_digit
digit_char-is_digit d h = rw (digit_code d h) (ground arith)

str_from-StartsWithDigit : (f n : ℕ) (rest : String) → n < f → StartsWithDigit (str_from f n rest)
unfolding str_from StartsWithDigit
str_from-StartsWithDigit zero n rest h = absurd (omega arith)
str_from-StartsWithDigit (suc f) n rest h = elim (Bool-cases (ltb n 10)) [
  | inl small ↦ rw small (digit_char n, rest, refl, digit_char-is_digit n (ground arith))
  | inr big ↦
      rw big
        (str_from-StartsWithDigit f (n / 10) (Text.◌∷◌ (digit_char (n % 10)) rest) (ground arith))
]

int_of-digit :
    (c : Char) (s : String)
    → is_digit (code c) ≡ true
    → int_of (Text.◌∷◌ c s) ≡ unsigned (Text.◌∷◌ c s)
unfolding int_of is_digit is_space
int_of-digit c s h = ground arith

int_of-str_from :
    (t : String) (n : ℕ) → StartsWithDigit t → scan first 0 t ≡ some n → int_of t ≡ some (pos n)
unfolding StartsWithDigit unsigned
int_of-str_from t n (c, s, e, d) h = rw e (int_of-digit c s d ∙ rw (rw e at h, unsigned) refl)

-- `int(str(n))` is `n`.
pub int_of-str_of : (n : ℕ) → int_of (str_of n) ≡ some (pos n)
unfolding str_of
int_of-str_of n =
    int_of-str_from (str_from (suc n) n "") n (str_from-StartsWithDigit (suc n) n "" (omega arith))
      (unfold scan in scan-str_from (suc n) n "" (omega arith))

-- Two numbers with one text are equal.
pub str_of-injective : (n m : ℕ) → str_of n ≡ str_of m → n ≡ m
str_of-injective n m e = cc (int_of-str_of n, int_of-str_of m, ap int_of e)
