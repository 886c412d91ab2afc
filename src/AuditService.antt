-- ===== src/AuditService.antt =====
-- `AuditService` of apps/audit/services.py: recording an event never fails its caller.
pub mod Effect
use django_ninja_rbac_authen.Prelude.{
  ℕ, Bool, true, false, Option, none, some, String, if◌then◌else◌,
}
use django_ninja_rbac_authen.Errors.{Error}
use django_ninja_rbac_authen.Effects.{Result, ok, err, Action, pure, raise, try_except, ◌>>=◌, ◌>>◌}
use django_ninja_rbac_authen.Decimal.{str_of}
use django_ninja_rbac_authen.Metadata.{Metadata, str, sanitize_optional, assign}
use django_ninja_rbac_authen.Platform.{Deployment}
use django_ninja_rbac_authen.Users.{UserDto}
use django_ninja_rbac_authen.Users
use django_ninja_rbac_authen.AuditLogs.{
  AuditAction, action_code, AuditContext, NewAuditLog, acreate, truncate_user_agent,
}
use django_ninja_rbac_authen.World.{World, Service, read_clock, reach_audit, on_users, on_audit}

-- `outcome: Literal["success", "failure"]`
pub data AuditOutcome : Type 0 where
  success failure : AuditOutcome

abbrev pub outcome_code : AuditOutcome → String
outcome_code success = "success"
outcome_code failure = "failure"

-- The arguments of `record` beside the context.
pub record Event : Type 0 where
  pub action : AuditAction
  pub target_type : Option String
  pub target_id : Option ℕ
  pub outcome : AuditOutcome
  pub metadata : Option Metadata

abbrev pub any_error : Error → Bool
any_error _ = true

abbrev pub with_email : AuditContext → Option UserDto → AuditContext
with_email c none = c
with_email c (some u) = record c { actor_email = some u.email }

-- The sanitized metadata, with the request's identifier if it has one.
abbrev pub event_metadata : Option Metadata → Option String → Metadata
event_metadata m none = sanitize_optional m
event_metadata m (some id) = assign "request_id" (str id) (sanitize_optional m)

abbrev id_text : Option ℕ → Option String
id_text none = none
id_text (some n) = some (str_of n)

abbrev pub log_of : Event → AuditContext → NewAuditLog
log_of e c = record {
  action = action_code e.action;
  actor_id = c.actor_id;
  actor_email = c.actor_email;
  target_type = e.target_type;
  target_id = id_text e.target_id;
  outcome = outcome_code e.outcome;
  ip = c.ip;
  user_agent = truncate_user_agent c.user_agent;
  metadata = event_metadata e.metadata c.request_id;
}

module _ (d : Deployment) where
  lookup_email : AuditContext → ℕ → Service d AuditContext
  lookup_email c id = do
    reach_audit d
    user ← on_users d (Users.aget_by_id id)
    pure (with_email c user)

  -- `_with_actor_email`
  unfoldable pub with_actor_email : AuditContext → Option ℕ → Option String → Service d AuditContext
  unfolding lookup_email
  with_actor_email c none email = pure c
  with_actor_email c (some id) (some email) = pure c
  with_actor_email c (some id) none = try_except (lookup_email c id) any_error (λ _. pure c)

  -- The body of the `try` in `record`.
  write_event : Event → AuditContext → Service d (Unit {0})
  unfolding with_actor_email
  write_event e context = do
    c ← with_actor_email context context.actor_id context.actor_email
    reach_audit d
    created_at ← read_clock d
    on_audit d (acreate created_at (log_of e c))
    pure tt

  -- `AuditService.record`
  unfoldable pub record_event : Event → AuditContext → Service d (Unit {0})
  unfolding write_event
  record_event e context = try_except (write_event e context) any_error (λ _. pure tt)
