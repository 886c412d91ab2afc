-- ===== src/Redis.antt =====
-- The Redis server as the blocklist uses it (apps/common/redis.py hands out its client): `SET key
-- value EX ttl` and `GET`. The server is not part of the repository, so it is a parameter; its laws
-- are the documented behaviour of these commands.
pub mod Clients
use django_ninja_rbac_authen.Prelude.{ℕ, ◌+◌, ◌*◌, ◌≤◌, ◌<◌, ◌≡◌, ◌≢◌, Option, none, some, String}

pub record RedisServer : Type 1 where
  pub Store : Type 0
  -- The value of a key at an instant, in microseconds.
  pub get : Store → String → ℕ → Option String
  -- Key, value, lifetime in seconds, and the instant of the command.
  pub set : Store → String → String → ℕ → ℕ → Store
  pub get-set_self :
      (s : Store) (k v : String) (ttl at now : ℕ)
      → at ≤ now
      → now < at + ttl * 1000000
      → get (set s k v ttl at) k now ≡ some v
  pub get-set_expired :
      (s : Store) (k v : String) (ttl at now : ℕ)
      → at + ttl * 1000000 ≤ now
      → get (set s k v ttl at) k now ≡ none
  pub get-set_ne :
      (s : Store) (k j v : String) (ttl at now : ℕ)
      → k ≢ j
      → get (set s k v ttl at) j now ≡ get s j now
