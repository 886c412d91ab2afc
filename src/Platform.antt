-- ===== src/Platform.antt =====
-- What the code takes from outside the repository: Django, Python's libraries, the clock, random
-- values and the network. Each is a parameter. Answers that differ from call to call are functions of
-- the number of the call.
use django_ninja_rbac_authen.Prelude.{
  ℕ, ◌*◌, ◌/◌, ◌≤◌, ◌<◌, ◌≡◌, Bool, List, String, pos, Option, [], ◌∷◌,
}
use django_ninja_rbac_authen.Errors.{Error, invalid_token_error}
use django_ninja_rbac_authen.Effects.{Result, ok, err}
use django_ninja_rbac_authen.Metadata.{int, str, arr, Items, nil, cons, Metadata, end, field}
use django_ninja_rbac_authen.Redis.{RedisServer}

pub record Platform : Type 0 where
  -- `timezone.now()`, in microseconds since 1970
  pub now : ℕ → ℕ
  -- `secrets.token_urlsafe(48)` and `str(uuid4())`
  pub token_urlsafe : ℕ → String
  pub uuid4 : ℕ → String
  -- whether Redis, and the database during audit recording, answer
  pub redis_up : ℕ → Bool
  pub audit_up : ℕ → Bool
  -- `hashlib.sha256(text.encode()).hexdigest()`
  pub sha256_hexdigest : String → String
  -- Django's hashers; the first argument is the call, which picks the salt
  pub make_password : ℕ → String → String
  pub check_password : String → String → Bool
  -- `BaseUserManager.normalize_email`, `str.lower`, `str.strip`, and the database's `lower`
  pub base_normalize_email : String → String
  pub lower : String → String
  pub strip : String → String
  pub db_lower : String → String
  -- pydantic's `EmailStr`: the address in its normal form, or `None` if it is refused
  pub email_str : String → Option String
  -- `ip_address(value).version`; `none` is its `ValueError`.
  pub ip_version : String → Option ℕ
  -- `str(ip_network(f"{ip_address(value)}/{prefix_length}", strict=False))`
  pub ip_network : String → ℕ → String

-- The constants that config/settings/base.py sets; a duration is in microseconds.
pub record Settings : Type 0 where
  pub default_user_role : String
  pub jwt_secret : String
  pub access_token_lifetime : ℕ
  pub refresh_token_lifetime : ℕ
  pub refresh_bind_device : Bool
  pub refresh_bind_ip : Bool

-- The claims that `encode_access_token` hands to PyJWT; `exp` and `iat` are instants.
pub record Payload : Type 0 where
  pub sub : String
  pub exp : ℕ
  pub iat : ℕ
  pub jti : String
  pub roles : List String
  pub perms : List String

abbrev pub texts : List String → Items
texts [] = nil
texts (s ∷ ss) = cons (str s) (texts ss)

-- The dictionary that a decoded token holds: PyJWT writes an instant as its whole seconds.
abbrev pub claims_of : Payload → Metadata
claims_of p = field "sub" (str p.sub) (
    field "exp" (int (pos (p.exp / 1000000))) (
      field "iat" (int (pos (p.iat / 1000000))) (
        field "jti" (str p.jti)
          (field "roles" (arr (texts p.roles)) (field "perms" (arr (texts p.perms)) end)))))

-- PyJWT with HS256. `decode` takes the token, the secret and the instant of the call. The laws are
-- its documented behaviour: a token decodes to its claims under its own secret from `iat` until `exp`,
-- is refused from `exp` on, and every refusal is an `InvalidTokenError`.
pub record JwtLibrary : Type 0 where
  pub encode : Payload → String → String
  pub decode : String → String → ℕ → Result Metadata
  pub decode-encode :
      (p : Payload) (secret : String) (now : ℕ)
      → p.iat / 1000000 * 1000000 ≤ now
      → now < p.exp / 1000000 * 1000000
      → decode (encode p secret) secret now ≡ ok (claims_of p)
  pub decode-encode_expired :
      (p : Payload) (secret : String) (now : ℕ)
      → p.exp / 1000000 * 1000000 ≤ now
      → decode (encode p secret) secret now ≡ err invalid_token_error
  pub decode_refusal :
      (token secret : String) (now : ℕ) (e : Error)
      → decode token secret now ≡ err e
      → e ≡ invalid_token_error

-- A running installation.
pub record Deployment : Type 1 where
  pub settings : Settings
  pub platform : Platform
  pub redis : RedisServer
  pub jwt : JwtLibrary
