-- ===== src/Jwt.antt =====
-- apps/authz/security/jwt.py: building, checking and reading access tokens.
pub mod Sorting
pub mod RoundTrip
use Prim.Native.String.{compare}
use Prim.Native.Nat.{Ordering}
use django_ninja_rbac_authen.Prelude.{
  ℕ, ◌+◌, ◌*◌, Bool, true, false, not, ◌&&◌, ◌||◌, Option, none, some, List, [], ◌∷◌, String,
  str_eq, leb, ltb, ℤ, pos, negsuc, leb_ℤ, any, if◌then◌else◌,
}
use django_ninja_rbac_authen.Errors.{
  Error, raised, invalid_token, value_error, type_error, key_error, os_error, overflow_error,
  invalid_token_error,
}
use django_ninja_rbac_authen.Effects.{Result, ok, err}
use django_ninja_rbac_authen.Metadata.{
  Value, null, bool, int, str, arr, obj, Items, nil, cons, Metadata, get,
}
use django_ninja_rbac_authen.Platform.{Payload, JwtLibrary}

-- `AccessTokenClaims`. Both instants are whole seconds; a frozenset is a list of which only membership
-- and the sorted order are used.
pub record AccessTokenClaims : Type 0 where
  pub subject : String
  pub expires_at : ℤ
  pub issued_at : ℤ
  pub token_id : String
  pub roles : List String
  pub permissions : List String

infixl 5 ◌>>=◌
abbrev ◌>>=◌ : {A B : Type 0} → Result A → (A → Result B) → Result B
ok a >>= f = f a
err e >>= f = err e

abbrev is_before : String → String → Bool
is_before a b = elim (compare a b) [ Ordering.lt ↦ true | _ ↦ false ]

insert_sorted : String → List String → List String
insert_sorted s [] = s ∷ []
insert_sorted s (t ∷ ts) =
    let rest = insert_sorted s ts in
    if str_eq s t then t ∷ ts else if is_before t s then t ∷ rest else s ∷ t ∷ ts

-- `sorted(set(values))`
unfoldable pub sorted_set : List String → List String
unfolding insert_sorted
sorted_set [] = []
sorted_set (s ∷ ss) = insert_sorted s (sorted_set ss)

-- The payload of `encode_access_token`, for a subject that is already a text.
abbrev pub payload_of : String → List String → List String → ℕ → ℕ → String → Payload
payload_of subject roles permissions lifetime issued_at jti = record {
  sub = subject;
  exp = issued_at + lifetime;
  iat = issued_at;
  jti = jti;
  roles = sorted_set roles;
  perms = sorted_set permissions;
}

-- `payload[key]`
lookup_claim : String → Metadata → Result Value
lookup_claim key m = elim (get key m) [ none ↦ err key_error | some v ↦ ok v ]

-- `isinstance(value, str)` and not empty
nonempty_text : Value → Result String
nonempty_text (str s) = if str_eq s "" then err value_error else ok s
nonempty_text _ = err value_error

text_items : Items → Result (List String)
text_items nil = ok []
text_items (cons (str s) xs) = text_items xs >>= λ ss. ok (s ∷ ss)
text_items (cons _ xs) = err value_error

-- `isinstance(value, list) and all(isinstance(item, str) for item in value)`
text_list : Value → Result (List String)
unfolding text_items
text_list (arr xs) = text_items xs
text_list _ = err value_error

-- `isinstance(value, int)`: a Boolean is an `int` in Python.
integer : Value → Result ℤ
integer (int n) = ok n
integer (bool true) = ok (pos 1)
integer (bool false) = ok (pos 0)
integer _ = err value_error

-- `datetime.fromtimestamp(n, UTC)`: the years 1 to 9999; beyond, the platform's `time_t` and `gmtime`
-- decide which exception is raised.
from_timestamp : ℤ → Result ℤ
from_timestamp n =
    if leb_ℤ (negsuc 62135596799) n && leb_ℤ n (pos 253402300799)
    then ok n
    else if leb_ℤ (negsuc 67768040609740799) n && leb_ℤ n (pos 67768036191676799)
    then err value_error
    else if leb_ℤ (negsuc 9223372036854775807) n && leb_ℤ n (pos 9223372036854775807)
    then err os_error
    else err overflow_error

unfoldable pub parse_claims : Metadata → Result AccessTokenClaims
unfolding lookup_claim nonempty_text text_list integer from_timestamp get
parse_claims payload = do
  subject ← lookup_claim "sub" payload
  token_id ← lookup_claim "jti" payload
  roles ← lookup_claim "roles" payload
  permissions ← lookup_claim "perms" payload
  issued_at ← lookup_claim "iat" payload
  expires_at ← lookup_claim "exp" payload
  subject' ← nonempty_text subject
  token_id' ← nonempty_text token_id
  roles' ← text_list roles
  permissions' ← text_list permissions
  issued ← integer issued_at
  expires ← integer expires_at
  expires' ← from_timestamp expires
  issued' ← from_timestamp issued
  ok (record {
    subject = subject';
    expires_at = expires';
    issued_at = issued';
    token_id = token_id';
    roles = roles';
    permissions = permissions';
  })

-- `except (InvalidTokenError, KeyError, TypeError, ValueError)`
abbrev pub is_token_error : Error → Bool
is_token_error invalid_token_error = true
is_token_error key_error = true
is_token_error type_error = true
is_token_error value_error = true
is_token_error _ = false

abbrev pub refuse_token : Result AccessTokenClaims → Result AccessTokenClaims
refuse_token (ok c) = ok c
refuse_token (err e) = elim (is_token_error e) [ true ↦ err (raised invalid_token) | false ↦ err e ]

module _ (jwt : JwtLibrary) where
  -- `decode_access_token` with the given secret, at an instant
  unfoldable pub decode_access_token : String → String → ℕ → Result AccessTokenClaims
  unfolding parse_claims
  decode_access_token token secret now = refuse_token (jwt.decode token secret now >>= parse_claims)
