-- ===== src/Config/Ttl.antt =====
-- What `parse_ttl` accepts and returns.
use Prim.Native.Char.{Char, code}
use Prim.Native.String as Text
use Prim.Native.String.append
use native.Mathlib.Nat.{mul_assoc}
use django_ninja_rbac_authen.Prelude.{
  ℕ, ◌+◌, ◌-◌, ◌*◌, ◌/◌, ◌≤◌, ◌<◌, ◌≡◌, refl, sym, subst, ap, ◌∙◌, ◌⊎◌, inl, inr, true, false, not,
  ◌&&◌, Option, none, some, String, arith, leb, ◌==◌, Bool-cases, Option-cases,
}
use django_ninja_rbac_authen.Errors.{overflow_error}
use django_ninja_rbac_authen.Effects.{ok, err}
use django_ninja_rbac_authen.Decimal.{str_of, is_digit, is_space}
use django_ninja_rbac_authen.Decimal.Digits.{
  digits_value, digits_value-str_of, StartsWithNonzero, str_of-StartsWithNonzero,
}
use django_ninja_rbac_authen.Config.{
  strip_left, strip_right, strip, is_empty_text, unit_seconds, TtlState, in_digits, in_space,
  ttl_step, match_ttl, ttl_unit, ttl_pattern, timedelta, duration, parse_ttl,
}

-- The letter of a unit, and the seconds that the unit has: a minute, an hour or a day.
abbrev pub IsUnit : Char → ℕ → Type 0
IsUnit u seconds =
    ((code u ≡ b'm') × (seconds ≡ 60))
    ⊎ ((code u ≡ b'h') × (seconds ≡ 60 * 60))
    ⊎ ((code u ≡ b'd') × (seconds ≡ 24 * (60 * 60)))

-- The code reads the letter as that many seconds.
abbrev IsRead : Char → ℕ → Type 0
IsRead u seconds = unit_seconds (code u) ≡ some seconds

abbrev pub with_unit : String → Char → String
with_unit s u = Text.◌++◌ s (Text.◌∷◌ u "")

IsUnit-IsRead : (u : Char) (k : ℕ) → IsUnit u k → IsRead u k
IsUnit-IsRead u k (inl (c, e)) = rw (c, e) refl
IsUnit-IsRead u k (inr (inl (c, e))) = rw (c, e) refl
IsUnit-IsRead u k (inr (inr (c, e))) = rw (c, e) refl

IsRead-plain :
    (u : Char) (k : ℕ) → IsRead u k → (is_digit (code u) ≡ false) × (is_space (code u) ≡ false)
unfolding is_digit is_space
IsRead-plain u k h = ground arith

ttl_step-digit :
    (n : ℕ) (c : ℕ)
    → is_digit c ≡ true
    → ttl_step in_digits n c ≡ some (in_digits, n * 10 + (c - 48))
unfolding ttl_step
ttl_step-digit n c h = rw h refl

ttl_step-unit : (n : ℕ) (u : Char) (k : ℕ) → IsRead u k → ttl_step in_digits n (code u) ≡ none
unfolding ttl_step
ttl_step-unit n u k unit = let (d, p) = IsRead-plain u k unit in rw (d, p) refl

digits_value-cons :
    (n m : ℕ) (c : Char) (s : String)
    → digits_value n (Text.◌∷◌ c s) ≡ some m
    → (is_digit (code c) ≡ true) × (digits_value (n * 10 + (code c - 48)) s ≡ some m)
unfolding digits_value
digits_value-cons n m c s h = elim (Bool-cases (is_digit (code c))) [
  | inl d ↦ (d, rw d at h)
  | inr d ↦ absurd (ground (arith, d, h))
]

match_ttl-unit :
    (n : ℕ) (u : Char) (k : ℕ) → IsRead u k → match_ttl in_digits n (Text.◌∷◌ u "") ≡ some (n, k)
unfolding match_ttl
match_ttl-unit n u k unit = rw (ttl_step-unit n u k unit, match_ttl) (rw (unit, ttl_unit) refl)

match_ttl-digit :
    (n : ℕ) (c : Char) (s : String)
    → is_digit (code c) ≡ true
    → match_ttl in_digits n (Text.◌∷◌ c s) ≡ match_ttl in_digits (n * 10 + (code c - 48)) s
unfolding match_ttl
match_ttl-digit n c s d = rw (ttl_step-digit n (code c) d, match_ttl) refl

digits_value-nil : (n m : ℕ) → digits_value n "" ≡ some m → n ≡ m
unfolding digits_value
digits_value-nil n m h = ground (arith, h)

match_ttl-with_unit :
    (n m : ℕ) (s : String) (u : Char) (k : ℕ)
    → digits_value n s ≡ some m
    → IsRead u k
    → match_ttl in_digits n (with_unit s u) ≡ some (m, k)
match_ttl-with_unit n m Text.[] u k h unit =
    rw (append.nil (Text.◌∷◌ u ""))
      (match_ttl-unit n u k unit ∙ ap (λ r. some (r, k)) (digits_value-nil n m h))
match_ttl-with_unit n m (Text.◌∷◌ c s) u k h unit =
    let (d, rest) = digits_value-cons n m c s h in
    rw (append.cons c s (Text.◌∷◌ u "")) (
      match_ttl-digit n c (with_unit s u) d
      ∙ match_ttl-with_unit (n * 10 + (code c - 48)) m s u k rest unit)

-- Nothing is stripped from the left of a digit, or from the right of a unit.
strip_left-nonspace :
    (c : Char) (s : String) → is_space (code c) ≡ false → strip_left (Text.◌∷◌ c s) ≡ Text.◌∷◌ c s
unfolding strip_left
strip_left-nonspace c s h = rw h refl

strip_right-with_unit :
    (s : String) (u : Char)
    → is_space (code u) ≡ false
    → (strip_right (with_unit s u) ≡ with_unit s u) × (is_empty_text (with_unit s u) ≡ false)
unfolding strip_right
strip_right-with_unit Text.[] u h = rw (append.nil (Text.◌∷◌ u ""), h) (refl, refl)
strip_right-with_unit (Text.◌∷◌ c s) u h =
    let (same, more) = strip_right-with_unit s u h in
    rw (append.cons c s (Text.◌∷◌ u ""), same, more) (ground arith)

-- A digit is no space, and its value is its code behind that of `0`.
is_digit-not_space : (c : ℕ) → is_digit c ≡ true → is_space c ≡ false
unfolding is_digit is_space
is_digit-not_space c h = ground arith

ttl_pattern-with_unit :
    (n : ℕ) (t : String) (u : Char) (k : ℕ)
    → StartsWithNonzero t
    → digits_value 0 t ≡ some n
    → IsRead u k
    → ttl_pattern (strip (with_unit t u)) ≡ some (n, k)
unfolding ttl_pattern
ttl_pattern-with_unit n t u k (c, s, e, d, nonzero) value unit =
    let (_, rest) = digits_value-cons 0 n c s (rw (← e) value) in
    let plain : is_space (code u) ≡ false = (IsRead-plain u k unit).1 in
    let whole : with_unit t u ≡ Text.◌∷◌ c (with_unit s u) =
      rw e (append.cons c s (Text.◌∷◌ u "")) in
    let same : strip (with_unit t u) ≡ Text.◌∷◌ c (with_unit s u) =
      ap strip_right (
        ap strip_left whole
        ∙ strip_left-nonspace c (with_unit s u) (is_digit-not_space (code c) d)
        ∙ sym whole)
      ∙ (strip_right-with_unit t u plain).0
      ∙ whole in
    rw (same, d, nonzero)
      (match_ttl-with_unit (code c - 48) n s u k
        (subst (λ r. digits_value r s ≡ some n) (omega arith) rest) unit)

timedelta-bound :
    (seconds : ℕ)
    → (seconds < 86400000000000 → timedelta seconds ≡ ok (seconds * 1000000))
      × (86400000000000 ≤ seconds → timedelta seconds ≡ err overflow_error)
timedelta-bound seconds = (λ h. ground (arith, h), λ h. ground (arith, h))

-- A positive number, written out in front of one of the letters m, h and d, is read as that many
-- minutes, hours or days, in microseconds, if that is less than 1000000000 days, and raises
-- `OverflowError` otherwise.
pub parse_ttl-str_of :
    (n : ℕ) (u : Char) (k : ℕ)
    → 0 < n
    → IsUnit u k
    → (n * k < 86400000000000 → parse_ttl (with_unit (str_of n) u) ≡ ok (n * k * 1000000))
      × (86400000000000 ≤ n * k → parse_ttl (with_unit (str_of n) u) ≡ err overflow_error)
unfolding parse_ttl
parse_ttl-str_of n u k pos unit =
    rw
      (ttl_pattern-with_unit n (str_of n) u k (str_of-StartsWithNonzero n pos)
        (digits_value-str_of n) (IsUnit-IsRead u k unit))
      (timedelta-bound (n * k))

-- The unit is a positive number of whole minutes.
abbrev IsMinutes : ℕ → Type 0
IsMinutes k = (j : ℕ) × (k ≡ j * 60) × (0 < j)

unit_seconds-IsMinutes : (c k : ℕ) → unit_seconds c ≡ some k → IsMinutes k
unit_seconds-IsMinutes c k h = elim (Bool-cases (c == b'm')) [
  | inl m ↦ (1, ground (arith, h, m), omega arith)
  | inr n ↦ elim (Bool-cases (c == b'h')) [
    | inl m ↦ (60, ground (arith, h, m, n), omega arith)
    | inr n' ↦ (1440, ground (arith, h, n, n'), omega arith)
  ]
]

abbrev Reads : ℕ → Option (ℕ × ℕ) → Type 0
Reads n o = (m k : ℕ) → o ≡ some (m, k) → (n ≤ m) × IsMinutes k

ttl_unit-Reads : (n c : ℕ) (s : String) → Reads n (ttl_unit n c s)
ttl_unit-Reads n c Text.[] m k h = elim (Option-cases (unit_seconds c)) [
  | inl e ↦ absurd (ground (arith, rw (e, ttl_unit) at h))
  | inr (u, e) ↦
      let h' : some (n, u) ≡ some (m, k) = rw (e, ttl_unit) at h in
      (ground (arith, h'), unit_seconds-IsMinutes c k (e ∙ ground (arith, h')))
]
ttl_unit-Reads n c (Text.◌∷◌ d s) m k h = absurd (ground (arith, h))

ttl_step_grows : (st st' : TtlState) (n m c : ℕ) → ttl_step st n c ≡ some (st', m) → n ≤ m
unfolding ttl_step
ttl_step_grows in_digits st' n m c h = ground (arith, h)
ttl_step_grows in_space st' n m c h = ground (arith, h)

match_ttl-Reads : (st : TtlState) (n : ℕ) (s : String) → Reads n (match_ttl st n s)
unfolding match_ttl
match_ttl-Reads st n Text.[] m k h = absurd (ground (arith, h))
match_ttl-Reads st n (Text.◌∷◌ c s) m k h = elim (Option-cases (ttl_step st n (code c))) [
  | inl e ↦ ttl_unit-Reads n (code c) s m k (rw (e, match_ttl) at h)
  | inr ((st', n'), e) ↦
      let (below, minutes) = match_ttl-Reads st' n' s m k (rw (e, match_ttl) at h) in
      (omega (arith, ttl_step_grows st st' n n' (code c) e, below), minutes)
]

ttl_pattern-Reads : (s : String) → Reads 1 (ttl_pattern s)
unfolding ttl_pattern is_digit
ttl_pattern-Reads Text.[] m k h = absurd (ground (arith, h))
ttl_pattern-Reads (Text.◌∷◌ c s) m k h =
    elim (Bool-cases (is_digit (code c) && not (code c == b'0'))) [
      | inl d ↦
          let (below, minutes) = match_ttl-Reads in_digits (code c - 48) s m k (rw d at h) in
          (ground (arith, below, d), minutes)
      | inr d ↦ absurd (ground (arith, rw d at h))
    ]

-- A duration that is accepted is a positive number of whole minutes, of 999999999 days at most.
abbrev pub IsDuration : ℕ → Type 0
IsDuration us =
    (minutes : ℕ) × (us ≡ minutes * 60000000) × (0 < minutes) × (minutes / 1440 ≤ 999999999)

timedelta_minutes : (x us : ℕ) → 0 < x → timedelta (x * 60) ≡ ok us → IsDuration us
timedelta_minutes x us pos h = elim (Bool-cases (leb (x * 60 / 86400) 999999999)) [
  | inl small ↦ (x, ground (arith, h, small), pos, ground (arith, small))
  | inr big ↦ absurd (ground (arith, h, big))
]

timedelta-IsDuration :
    (m k us : ℕ) → 1 ≤ m → IsMinutes k → timedelta (m * k) ≡ ok us → IsDuration us
timedelta-IsDuration m k us pos (j, e, jpos) h =
    let prod : m * k ≡ m * j * 60 = rw e (sym (mul_assoc m j 60)) in
    let some_minutes : 0 < m * j = grind arith in
    timedelta_minutes (m * j) us some_minutes (rw prod at h)

pub parse_ttl-IsDuration : (s : String) (us : ℕ) → parse_ttl s ≡ ok us → IsDuration us
unfolding parse_ttl
parse_ttl-IsDuration s us h = elim (Option-cases (ttl_pattern (strip s))) [
  | inl e ↦ absurd (ground (arith, rw (e, duration) at h))
  | inr ((m, k), e) ↦
      let (pos, minutes) = ttl_pattern-Reads (strip s) m k e in
      timedelta-IsDuration m k us pos minutes (rw (e, duration) at h)
]
