-- ===== src/Config.antt =====
-- config/settings/base.py and prod.py: the settings that the process reads from its environment when it
-- starts. Durations are in microseconds.
pub mod Ttl
pub mod Environment
pub mod Boot
use Prim.Native.Char.{Char, code}
use Prim.Native.String as Text
use django_ninja_rbac_authen.Prelude.{
  size, ℕ, ◌+◌, ◌-◌, ◌*◌, ◌/◌, Bool, true, false, not, ◌&&◌, ◌||◌, Option, none, some, List, [],
  ◌∷◌, String, str_eq, leb, ltb, ◌==◌, is_none, truthy, if◌then◌else◌,
}
use django_ninja_rbac_authen.Errors.{
  Error, value_error, overflow_error, schema_invalid, improperly_configured,
}
use django_ninja_rbac_authen.Effects.{Result, ok, err}
use django_ninja_rbac_authen.Decimal.{is_space, is_digit}
use django_ninja_rbac_authen.Platform.{Settings}
use django_ninja_rbac_authen.ClientIp.{split_commas}

abbrev is_empty_text : String → Bool
is_empty_text Text.[] = true
is_empty_text (Text.◌∷◌ _ _) = false

-- `str.strip()`
unfoldable pub strip_left : String → String
strip_left Text.[] = Text.[]
strip_left (Text.◌∷◌ c s) =
    let rest = strip_left s in if is_space (code c) then rest else Text.◌∷◌ c s

unfoldable pub strip_right : String → String
strip_right Text.[] = Text.[]
strip_right (Text.◌∷◌ c s) =
    let rest = strip_right s in
    if is_space (code c) && is_empty_text rest then Text.[] else Text.◌∷◌ c rest

abbrev pub strip : String → String
strip s = strip_right (strip_left s)

-- The seconds of a unit: `m`, `h` or `d`.
abbrev pub unit_seconds : ℕ → Option ℕ
unit_seconds c =
    if c == b'm'
    then some 60
    else if c == b'h'
    then some 3600
    else if c == b'd'
    then some 86400
    else none

-- Where a match of `_TTL_PATTERN` stands behind the first digit: in the digits, or in the space.
pub data TtlState : Type 0 where
  in_digits in_space : TtlState

unfoldable pub ttl_step : TtlState → ℕ → ℕ → Option (TtlState × ℕ)
ttl_step in_digits n c =
    if is_digit c
    then some (in_digits, n * 10 + (c - 48))
    else if is_space c
    then some (in_space, n)
    else none
ttl_step in_space n c = if is_space c then some (in_space, n) else none

-- The unit has to be the last character.
abbrev ttl_unit : ℕ → ℕ → String → Option (ℕ × ℕ)
ttl_unit n c Text.[] = elim (unit_seconds c) [ none ↦ none | some u ↦ some (n, u) ]
ttl_unit n c (Text.◌∷◌ _ _) = none

unfoldable pub match_ttl : TtlState → ℕ → String → Option (ℕ × ℕ)
unfolding ttl_step
match_ttl st n Text.[] = none
match_ttl st n (Text.◌∷◌ c s) = elim (ttl_step st n (code c)) [
  | none ↦ ttl_unit n (code c) s
  | some (st', m) ↦ match_ttl st' m s
]

-- `_TTL_PATTERN.fullmatch`: the amount and the seconds of its unit.
unfoldable pub ttl_pattern : String → Option (ℕ × ℕ)
unfolding match_ttl
ttl_pattern Text.[] = none
ttl_pattern (Text.◌∷◌ c s) =
    if is_digit (code c) && not (code c == b'0') then match_ttl in_digits (code c - 48) s else none

-- `timedelta(…)` of whole seconds: it holds 999999999 days at most.
abbrev pub timedelta : ℕ → Result ℕ
timedelta seconds =
    if leb (seconds / 86400) 999999999 then ok (seconds * 1000000) else err overflow_error

abbrev duration : Option (ℕ × ℕ) → Result ℕ
duration none = err value_error
duration (some (amount, seconds)) = timedelta (amount * seconds)

unfoldable pub parse_ttl : String → Result ℕ
unfolding ttl_pattern strip_left strip_right
parse_ttl value = duration (ttl_pattern (strip value))
