-- ===== src/Tests/Boot.antt =====
-- The settings at concrete environments.
use django_ninja_rbac_authen.Prelude.{
  ◌≡◌, refl, arith, true, false, none, some, [], ◌∷◌, ◌*◌, ◌<◌, ◌≤◌, inl, inr, str_eq,
  if◌then◌else◌,
}
use django_ninja_rbac_authen.Errors.{schema_invalid, overflow_error}
use django_ninja_rbac_authen.Effects.{ok, err}
use django_ninja_rbac_authen.Decimal.{str_of, is_space, is_digit}
use django_ninja_rbac_authen.Platform.{Deployment}
use django_ninja_rbac_authen.AuthService.{access_token_ttl_seconds}
use django_ninja_rbac_authen.Config.{parse_ttl}
use django_ninja_rbac_authen.Config.Ttl.{with_unit, parse_ttl-str_of}
use django_ninja_rbac_authen.Config.Environment.{
  Environment, Parsers, AppSettings, secret, validate_database_url, validate_trusted_proxy_cidrs,
  load, settings_of,
}
use django_ninja_rbac_authen.Config.Boot.{IsSound, boot-IsSound}
use django_ninja_rbac_authen.Throttling.{normalize_rate}
use django_ninja_rbac_authen.Tests.Installation.{demo}

parse_ttl-str_of_example :
    (90 * 3600 < 86400000000000 → parse_ttl (with_unit (str_of 90) "h") ≡ ok (90 * 3600 * 1000000))
    × (86400000000000 ≤ 90 * 3600 → parse_ttl (with_unit (str_of 90) "h") ≡ err overflow_error)
parse_ttl-str_of_example = parse_ttl-str_of 90 "h" 3600 (ground arith) (inr (inl (refl, refl)))

-- Spaces are allowed around the amount and the unit, a leading zero is not.
spaced_ttl : parse_ttl " 15 m " ≡ ok 900000000
unfolding parse_ttl is_space is_digit
spaced_ttl = refl

abbrev parsers : Parsers
parsers = record {
  parse_url = λ s. some (record {
    engine = some "django.db.backends.postgresql";
    host = some "db";
    name = some "app";
  });
  parse_bool =
      λ s. if str_eq s "true" then some true else if str_eq s "false" then some false else none;
  is_network = λ s. str_eq s "10.0.0.0/8";
}

abbrev environment : Environment
environment = record {
  database_url = some "postgresql://u:p@db:5432/app";
  django_secret_key = some "django-django-django-django-django";
  jwt_secret = some "jwt-jwt-jwt-jwt-jwt-jwt-jwt-jwt-jwt";
  access_ttl = some "10m";
  refresh_ttl = none;
  refresh_bind_device = none;
  refresh_bind_ip = some "true";
  default_user_role = none;
  throttle_login = none;
  redis_url = none;
  allowed_hosts = none;
  trusted_proxy_cidrs = some "10.0.0.0/8, ";
}

abbrev expected : AppSettings
expected = record {
  database_url = "postgresql://u:p@db:5432/app";
  django_secret_key = "django-django-django-django-django";
  jwt_secret = "jwt-jwt-jwt-jwt-jwt-jwt-jwt-jwt-jwt";
  access_ttl = 600000000;
  refresh_ttl = 604800000000;
  refresh_bind_device = true;
  refresh_bind_ip = true;
  default_user_role = "user";
  throttle_login = "5/minute";
  redis_url = "redis://redis:6379/0";
  allowed_hosts = [];
  trusted_proxy_cidrs = "10.0.0.0/8" ∷ [];
}

loaded : load parsers environment ≡ ok expected
unfolding load parse_ttl validate_database_url secret is_space is_digit validate_trusted_proxy_cidrs
loaded = refl

-- The same text for both secrets is refused.
same_secret :
    load parsers (record environment { jwt_secret = environment.django_secret_key })
    ≡ err schema_invalid
unfolding load parse_ttl validate_database_url secret is_space is_digit validate_trusted_proxy_cidrs
same_secret = refl

abbrev booted : Deployment
booted = record demo { settings = settings_of expected }

boot-IsSound_example :
    IsSound parsers expected
    × (booted.settings.access_token_lifetime ≡ access_token_ttl_seconds booted * 1000000)
boot-IsSound_example = boot-IsSound parsers environment expected booted loaded refl

-- The default rate in the form that Ninja reads.
normalize_rate_test : normalize_rate "5/minute" ≡ "5/min"
unfolding normalize_rate
normalize_rate_test = refl
