-- ===== src/Config/Environment.antt =====
-- config/settings/base.py: `Settings`, built from environment variables by pydantic; prod.py: the
-- additional test in production. pydantic collects every `ValueError` of a field's validator into one
-- error; another exception goes through at once.
use django_ninja_rbac_authen.Prelude.{
  size, ℕ, Bool, true, false, ◌&&◌, Option, none, some, List, [], ◌∷◌, String, str_eq, leb, truthy,
  if◌then◌else◌,
}
use django_ninja_rbac_authen.Errors.{
  Error, value_error, overflow_error, schema_invalid, improperly_configured,
}
use django_ninja_rbac_authen.Effects.{Result, ok, err}
use django_ninja_rbac_authen.Platform.{Settings}
use django_ninja_rbac_authen.ClientIp.{split_commas}
use django_ninja_rbac_authen.Config.{strip, strip_left, strip_right, parse_ttl}

-- The environment variables that are read; `none` is one that is not set.
pub record Environment : Type 0 where
  pub database_url : Option String
  pub django_secret_key : Option String
  pub jwt_secret : Option String
  pub access_ttl : Option String
  pub refresh_ttl : Option String
  pub refresh_bind_device : Option String
  pub refresh_bind_ip : Option String
  pub default_user_role : Option String
  pub throttle_login : Option String
  pub redis_url : Option String
  pub allowed_hosts : Option String
  pub trusted_proxy_cidrs : Option String

pub record DatabaseConfig : Type 0 where
  pub engine : Option String
  pub host : Option String
  pub name : Option String

-- Code outside the repository: `dj_database_url.parse` (`none` is its `ValueError`), pydantic's reading
-- of a Boolean, and whether `ip_network(cidr, strict=False)` accepts a text.
pub record Parsers : Type 0 where
  pub parse_url : String → Option DatabaseConfig
  pub parse_bool : String → Option Bool
  pub is_network : String → Bool

-- `Settings` of base.py
pub record AppSettings : Type 0 where
  pub database_url : String
  pub django_secret_key : String
  pub jwt_secret : String
  pub access_ttl : ℕ
  pub refresh_ttl : ℕ
  pub refresh_bind_device : Bool
  pub refresh_bind_ip : Bool
  pub default_user_role : String
  pub throttle_login : String
  pub redis_url : String
  pub allowed_hosts : List String
  pub trusted_proxy_cidrs : List String

-- A field's error as pydantic reports it.
abbrev pub as_invalid : {A : Type 0} → Result A → Result A
as_invalid (ok a) = ok a
as_invalid (err value_error) = err schema_invalid
as_invalid (err e) = err e

abbrev worse : {B : Type 0} → Error → Result B → Error
worse overflow_error r = overflow_error
worse e (ok b) = e
worse e (err e') = e'

-- Two fields, in their order.
infixr 20 ◌&◌
abbrev pub ◌&◌ : {A B : Type 0} → Result A → Result B → Result (A × B)
ok a & ok b = ok (a, b)
ok a & err e = err e
err e & r = err (worse e r)

abbrev pub required : {A : Type 0} → Option String → (String → Result A) → Result A
required none check = err schema_invalid
required (some s) check = check s

abbrev pub defaulted {ℓ} : {A : Type ℓ} → Option String → A → (String → A) → A
defaulted none a read = a
defaulted (some s) a read = read s

-- `Field(min_length=32)`
unfoldable pub secret : String → Result String
secret s = if leb 32 (size s) then ok s else err schema_invalid

abbrev kept : List String → List String
kept [] = []
kept (s ∷ ss) = if str_eq s "" then kept ss else s ∷ kept ss

abbrev stripped : List String → List String
stripped [] = []
stripped (s ∷ ss) = strip s ∷ stripped ss

-- `[item.strip() for item in value.split(",")]` without the empty ones
unfoldable pub parse_list : String → List String
unfolding split_commas strip_left strip_right
parse_list value = kept (stripped (split_commas value))

abbrev pub every : (String → Bool) → List String → Bool
every p [] = true
every p (s ∷ ss) = p s && every p ss

-- `validate_ttl`, on a text
abbrev pub validate_ttl : String → Result ℕ
validate_ttl value = as_invalid (parse_ttl value)

-- The database URL, the two secrets, the two durations, the two bindings and the trusted proxies.
abbrev pub Fields : Type 0
Fields = String × ((String × String) × ((ℕ × ℕ) × ((Bool × Bool) × List String)))

abbrev or_text : Option String → String → String
or_text none s = s
or_text (some t) s = t

abbrev pub built : Environment → Fields → AppSettings
built env (url, ((django_key, jwt_key), ((access, refresh), ((device, ip), cidrs)))) = record {
  database_url = url;
  django_secret_key = django_key;
  jwt_secret = jwt_key;
  access_ttl = access;
  refresh_ttl = refresh;
  refresh_bind_device = device;
  refresh_bind_ip = ip;
  default_user_role = or_text env.default_user_role "user";
  throttle_login = or_text env.throttle_login "5/minute";
  redis_url = or_text env.redis_url "redis://redis:6379/0";
  allowed_hosts = defaulted env.allowed_hosts [] parse_list;
  trusted_proxy_cidrs = cidrs;
}

-- `validate_distinct_secrets`
abbrev pub distinct_secrets : AppSettings → Result AppSettings
distinct_secrets s = if str_eq s.django_secret_key s.jwt_secret then err schema_invalid else ok s

abbrev pub checked : Environment → Result Fields → Result AppSettings
checked env (err e) = err e
checked env (ok fs) = distinct_secrets (built env fs)

module _ (parsers : Parsers) where
  open parsers use {parse_url, parse_bool, is_network}

  abbrev is_postgres : DatabaseConfig → Bool
  is_postgres c =
      truthy c.host
      && truthy c.name
      && elim c.engine [ none ↦ false | some e ↦ str_eq e "django.db.backends.postgresql" ]

  -- `validate_database_url`
  unfoldable pub validate_database_url : String → Result String
  validate_database_url value = elim (parse_url value) [
    | none ↦ err schema_invalid
    | some c ↦ if leb 1 (size value) && is_postgres c then ok value else err schema_invalid
  ]

  -- `validate_trusted_proxy_cidrs`
  unfoldable pub validate_trusted_proxy_cidrs : String → Result (List String)
  unfolding parse_list
  validate_trusted_proxy_cidrs value =
      let cidrs = parse_list value in
      if every is_network cidrs then ok cidrs else err schema_invalid

  abbrev boolean : String → Result Bool
  boolean s = elim (parse_bool s) [ none ↦ err schema_invalid | some b ↦ ok b ]

  -- The fields in their order; those that any text satisfies are left out.
  abbrev pub fields : Environment → Result Fields
  fields e =
      required e.database_url validate_database_url
      & (required e.django_secret_key secret & required e.jwt_secret secret)
      & (defaulted e.access_ttl (parse_ttl "15m") validate_ttl
          & defaulted e.refresh_ttl (parse_ttl "7d") validate_ttl)
      & (defaulted e.refresh_bind_device (ok true) boolean
          & defaulted e.refresh_bind_ip (ok false) boolean)
      & defaulted e.trusted_proxy_cidrs (ok []) validate_trusted_proxy_cidrs

  -- `Settings()`
  unfoldable pub load : Environment → Result AppSettings
  unfolding parse_list
  load env = checked env (fields env)

  abbrev in_production : Result AppSettings → Result AppSettings
  in_production (err e) = err e
  in_production (ok s) = elim s.allowed_hosts [ [] ↦ err improperly_configured | h ∷ hs ↦ ok s ]

  -- prod.py
  unfoldable pub load_production : Environment → Result AppSettings
  unfolding load
  load_production env = in_production (load env)

-- The constants that base.py sets from the settings.
abbrev pub settings_of : AppSettings → Settings
settings_of s = record {
  default_user_role = s.default_user_role;
  jwt_secret = s.jwt_secret;
  access_token_lifetime = s.access_ttl;
  refresh_token_lifetime = s.refresh_ttl;
  refresh_bind_device = s.refresh_bind_device;
  refresh_bind_ip = s.refresh_bind_ip;
}
