-- ===== src/Tests/Redis.antt =====
-- A Redis server that keeps its writes in a list, the newest first.
use django_ninja_rbac_authen.Prelude.{
  ℕ, ◌+◌, ◌*◌, ◌≤◌, ◌<◌, ◌≡◌, ◌≢◌, Option, none, some, List, [], ◌∷◌, String, str_eq, eq_iff,
  eq_refl, arith, ltb, if◌then◌else◌,
}
use django_ninja_rbac_authen.Redis.{RedisServer}

pub record Entry : Type 0 where
  pub key : String
  pub value : String
  pub until : ℕ

abbrev pub get_entry : List Entry → String → ℕ → Option String
get_entry [] key now = none
get_entry (e ∷ es) key now =
    let older = get_entry es key now in
    if str_eq e.key key then (if ltb now e.until then some e.value else none) else older

abbrev pub set_entry : List Entry → String → String → ℕ → ℕ → List Entry
set_entry es key value ttl at = record { key = key; value = value; until = at + ttl * 1000000 } ∷ es

pub get-set_self_entry :
    (s : List Entry) (k v : String) (ttl at now : ℕ)
    → at ≤ now
    → now < at + ttl * 1000000
    → get_entry (set_entry s k v ttl at) k now ≡ some v
get-set_self_entry s k v ttl at now early late = rw (eq_refl k) (ground arith)

pub get-set_expired_entry :
    (s : List Entry) (k v : String) (ttl at now : ℕ)
    → at + ttl * 1000000 ≤ now
    → get_entry (set_entry s k v ttl at) k now ≡ none
get-set_expired_entry s k v ttl at now late = rw (eq_refl k) (ground arith)

pub get-set_ne_entry :
    (s : List Entry) (k j v : String) (ttl at now : ℕ)
    → k ≢ j
    → get_entry (set_entry s k v ttl at) j now ≡ get_entry s j now
get-set_ne_entry s k j v ttl at now ne = ground (arith, eq_iff k j)

abbrev pub list_server : RedisServer
list_server = record {
  Store = List Entry;
  get = get_entry;
  set = set_entry;
  get-set_self = get-set_self_entry;
  get-set_expired = get-set_expired_entry;
  get-set_ne = get-set_ne_entry;
}
