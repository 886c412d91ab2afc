-- ===== src/Blocklist.antt =====
-- apps/authz/security/blocklist.py: revoked access tokens and revocation epochs in Redis. A call of
-- Redis finds the server up or not, at an instant; a call to a server that is down raises.
pub mod Keys
pub mod Laws
pub mod Epoch
use Prim.Native.String as Text
use django_ninja_rbac_authen.Prelude.{
  ℕ, ◌+◌, ◌/◌, ◌*◌, ◌≡◌, Bool, true, false, Option, none, some, String, leb, ltb_ℤ, ℤ, pos, is_none,
  not, if◌then◌else◌,
}
use django_ninja_rbac_authen.Errors.{Error, outage, value_error}
use django_ninja_rbac_authen.Effects.{
  Result, ok, err, Action, pure, raise, lift, try_except, ◌>>=◌, ◌>>◌,
}
use django_ninja_rbac_authen.Decimal.{str_of, int_of}
use django_ninja_rbac_authen.Redis.{RedisServer}

-- The state of the connection during one call.
pub record Link : Type 0 where
  pub up : Bool
  pub now : ℕ

-- `math.ceil(at.timestamp())` of an instant in microseconds.
abbrev pub epoch_of : ℕ → ℕ
epoch_of at = (at + 999999) / 1000000

abbrev pub token_key : String → String
token_key jti = Text.◌++◌ "bl:jti:" jti

unfoldable pub user_epoch_key : ℕ → String
user_epoch_key user_id = Text.◌++◌ "user_epoch:" (str_of user_id)

-- `issued_at.timestamp() < int(user_epoch)`; `issued_at` is a whole second.
abbrev pub is_before_epoch : ℤ → Option ℤ → Result Bool
is_before_epoch issued_at none = err value_error
is_before_epoch issued_at (some e) = ok (ltb_ℤ issued_at e)

abbrev pub check_values : ℤ → Option String → Option String → Result Bool
check_values issued_at (some _) user_epoch = ok true
check_values issued_at none none = ok false
check_values issued_at none (some e) = is_before_epoch issued_at (int_of e)

-- `except Exception`
abbrev pub any_error : Error → Bool
any_error _ = true

module _ (redis : RedisServer) where
  open redis use {Store, get, set}

  client_set : Link → String → String → ℕ → Action Store (Unit {0})
  client_set link key value ttl s =
      if link.up then (ok tt, set s key value ttl link.now) else (err outage, s)

  client_mget : Link → String → String → Action Store (Option String × Option String)
  client_mget link a b s =
      if link.up then (ok (get s a link.now, get s b link.now), s) else (err outage, s)

  unfoldable pub block_token : Link → String → ℕ → Action Store (Unit {0})
  unfolding client_set
  block_token link jti ttl =
      if leb ttl 0
      then pure tt
      else try_except (client_set link (token_key jti) "1" ttl) any_error (λ _. pure tt)

  unfoldable pub revoke_user : Link → ℕ → ℕ → ℕ → Action Store (Unit {0})
  unfolding client_set
  revoke_user link user_id at ttl =
      if leb ttl 0
      then pure tt
      else try_except (client_set link (user_epoch_key user_id) (str_of (epoch_of at)) ttl)
          any_error (λ _. pure tt)

  read_blocklist : Link → String → ℕ → ℤ → Action Store Bool
  unfolding client_mget
  read_blocklist link jti user_id issued_at =
      client_mget link (token_key jti) (user_epoch_key user_id) >>= λ found.
      lift (check_values issued_at found.0 found.1)

  unfoldable pub is_blocked : Link → String → ℕ → ℤ → Action Store Bool
  unfolding read_blocklist
  is_blocked link jti user_id issued_at =
      try_except (read_blocklist link jti user_id issued_at) any_error (λ _. pure false)
