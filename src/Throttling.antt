-- ===== src/Throttling.antt =====
-- apps/common/throttling.py: the rate and the bucket of a throttle. Counting requests is Ninja's.
pub mod Rate
use Prim.Native.Char.{Char, code}
use Prim.Native.String as Text
use django_ninja_rbac_authen.Prelude.{
  ℕ, Bool, true, false, not, ◌&&◌, Option, none, some, String, str_eq, ◌==◌, truthy, if◌then◌else◌,
}

-- `partition("/")`: what stands before the first separator, whether there is one, and what stands behind.
unfoldable pub partition : String → String × Bool × String
partition Text.[] = (Text.[], false, Text.[])
partition (Text.◌∷◌ c s) =
    let (count, separator, period) = partition s in
    if code c == b'/' then (Text.[], true, s) else (Text.◌∷◌ c count, separator, period)

-- `units.get(period, period)`
abbrev pub unit : String → String
unit period =
    if str_eq period "second" then "sec" else if str_eq period "minute" then "min" else period

abbrev pub joined : String → String → String
joined count period = Text.◌++◌ count (Text.◌∷◌ "/" period)

abbrev pub normalized : String → String × Bool × String → String
normalized rate (count, separator, period) =
    if not (str_eq count "") && separator && not (str_eq period "")
    then joined count (unit period)
    else rate

-- `_normalize_rate`
unfoldable pub normalize_rate : String → String
unfolding partition
normalize_rate rate = normalized rate (partition rate)

-- `_IpRateThrottle`, whose subclasses differ in their scope
pub record IpRateThrottle : Type 0 where
  pub scope : String
  pub rate : String

-- `__init__`; `setting` is `settings.THROTTLE_LOGIN`.
unfoldable pub ip_rate_throttle : String → String → Option String → IpRateThrottle
unfolding normalize_rate
ip_rate_throttle setting scope none = record { scope = scope; rate = normalize_rate setting }
ip_rate_throttle setting scope (some rate) = record {
  scope = scope;
  rate = normalize_rate (if str_eq rate "" then setting else rate);
}

abbrev pub login_rate_throttle : String → IpRateThrottle
login_rate_throttle setting = ip_rate_throttle setting "login" none

abbrev pub register_rate_throttle : String → IpRateThrottle
register_rate_throttle setting = ip_rate_throttle setting "register" none

-- `get_cache_key`, with Ninja's `cache_format` and `get_ident` as parameters
abbrev pub cache_key : (String → String → String) → IpRateThrottle → Option String → Option String
cache_key cache_format throttle none = none
cache_key cache_format throttle (some ident) = some (cache_format throttle.scope ident)
