-- ===== src/World.antt =====
-- The state that a request works on: the database, Redis, and how many answers the outside has given.
-- Each table's repository is lifted to it.
use django_ninja_rbac_authen.Prelude.{ℕ, suc, String, if◌then◌else◌}
use django_ninja_rbac_authen.Errors.{outage}
use django_ninja_rbac_authen.Effects.{Result, ok, err, Action}
use django_ninja_rbac_authen.RefreshTokens.{TokenTable}
use django_ninja_rbac_authen.Blocklist.{Link}
use django_ninja_rbac_authen.Users.{UserTable}
use django_ninja_rbac_authen.Rbac.{RbacTables}
use django_ninja_rbac_authen.AuditLogs.{AuditTable}
use django_ninja_rbac_authen.Platform.{Deployment}

pub record Db : Type 0 where
  pub users : UserTable
  pub rbac : RbacTables
  pub tokens : TokenTable
  pub audit : AuditTable

module _ (d : Deployment) where
  pub record World : Type 0 where
    pub db : Db
    pub redis : d.redis.Store
    pub calls : ℕ

  abbrev pub Service : Type 0 → Type 0
  Service A = Action World A

  -- One more answer from outside.
  abbrev pub tick : World → World
  tick w = record w { calls = suc w.calls }

  abbrev pub read_clock : Service ℕ
  read_clock w = (ok (d.platform.now w.calls), tick w)

  abbrev pub draw_token : Service String
  draw_token w = (ok (d.platform.token_urlsafe w.calls), tick w)

  abbrev pub draw_uuid : Service String
  draw_uuid w = (ok (d.platform.uuid4 w.calls), tick w)

  -- `hash_password`
  abbrev pub hash_password : String → Service String
  hash_password password w = (ok (d.platform.make_password w.calls password), tick w)

  -- The database call of the audit trail fails, or goes on.
  abbrev pub reach_audit : Service (Unit {0})
  reach_audit w = (if d.platform.audit_up w.calls then ok tt else err outage, tick w)

  abbrev pub with_tokens : {A : Type 0} → World → Result A × TokenTable → Result A × World
  with_tokens w (r, t) = (r, record w { db = record w.db { tokens = t } })

  abbrev pub with_users : {A : Type 0} → World → Result A × UserTable → Result A × World
  with_users w (r, t) = (r, record w { db = record w.db { users = t } })

  abbrev pub with_rbac : {A : Type 0} → World → Result A × RbacTables → Result A × World
  with_rbac w (r, t) = (r, record w { db = record w.db { rbac = t } })

  abbrev pub with_audit : {A : Type 0} → World → Result A × AuditTable → Result A × World
  with_audit w (r, t) = (r, record w { db = record w.db { audit = t } })

  abbrev pub with_db : {A : Type 0} → World → Result A × Db → Result A × World
  with_db w (r, t) = (r, record w { db = t })

  abbrev pub with_redis : {A : Type 0} → World → Result A × d.redis.Store → Result A × World
  with_redis w (r, s) = (r, record w { redis = s; calls = suc w.calls })

  abbrev pub on_tokens : {A : Type 0} → Action TokenTable A → Service A
  on_tokens m w = with_tokens w (m w.db.tokens)

  abbrev pub on_users : {A : Type 0} → Action UserTable A → Service A
  on_users m w = with_users w (m w.db.users)

  abbrev pub on_rbac : {A : Type 0} → Action RbacTables A → Service A
  on_rbac m w = with_rbac w (m w.db.rbac)

  abbrev pub on_audit : {A : Type 0} → Action AuditTable A → Service A
  on_audit m w = with_audit w (m w.db.audit)

  abbrev pub on_db : {A : Type 0} → Action Db A → Service A
  on_db m w = with_db w (m w.db)

  -- One call of Redis.
  abbrev pub on_redis : {A : Type 0} → (Link → Action d.redis.Store A) → Service A
  on_redis m w =
      with_redis w
        (m (record { up = d.platform.redis_up w.calls; now = d.platform.now w.calls }) w.redis)
