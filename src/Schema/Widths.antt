-- ===== src/Schema/Widths.antt =====
-- Whether what the code writes into the audit trail (apps/audit/services.py) fits the columns of
-- `AuditLog` in apps/audit/models.py. A value that does not fit is refused by the database, and the
-- event is lost.
use Prim.Native.String as Text
use django_ninja_rbac_authen.Prelude.{
  ℕ, zero, suc, ◌≤◌, ◌<◌, ◌≡◌, refl, inl, inr, true, Option, none, some, List, [], ◌∷◌, String,
  str_eq, arith, size, Bool-cases, All, All-append, find-All, subst, sym,
}
use django_ninja_rbac_authen.Decimal.Size.{size-str_of}
use django_ninja_rbac_authen.Metadata.{Metadata}
use django_ninja_rbac_authen.Platform.{Deployment}
use django_ninja_rbac_authen.Users.{User}
use django_ninja_rbac_authen.Users
use django_ninja_rbac_authen.AuditLogs.{
  AuditAction, login_success, login_failure, logout, register, token_refreshed,
  token_reuse_detected, token_binding_mismatch, token_ip_changed, user_create, user_update,
  user_delete, role_assign, action_code, AuditContext, AuditLog, new_log, prefix,
  truncate_user_agent,
}
use django_ninja_rbac_authen.AuditService.{
  Event, AuditOutcome, success, failure, outcome_code, log_of, record_event,
}
use django_ninja_rbac_authen.AuditService.Effect.{Completes, record_event-Written}
use django_ninja_rbac_authen.AuthService.{event}
use django_ninja_rbac_authen.AdminService.{user_event}
use django_ninja_rbac_authen.World.{World}
use django_ninja_rbac_authen.Schema.{char, email, Field, lookup}
use django_ninja_rbac_authen.Schema.Accounts.{own_user_fields}
use django_ninja_rbac_authen.Schema.Audit.{audit_log_model}

-- Whether a field takes a text, or null.
abbrev Takes : Field → Option String → Type 0
Takes f none = f.null ≡ true
Takes f (some s) = elim f.kind [ char n ↦ size s ≤ n | email n ↦ size s ≤ n | _ ↦ ⊥ ]

abbrev TakesIf : Option Field → Option String → Type 0
TakesIf none v = ⊥
TakesIf (some f) v = Takes f v

-- Whether the column of `AuditLog` takes a value.
abbrev pub Column : String → Option String → Type 0
Column name v = TakesIf (lookup name audit_log_model.fields) v

pub record Fits (l : AuditLog) : Type 0 where
  pub action : Column "action" (some l.action)
  pub actor_email : Column "actor_email" l.actor_email
  pub target_type : Column "target_type" l.target_type
  pub target_id : Column "target_id" l.target_id
  pub outcome : Column "outcome" (some l.outcome)
  pub user_agent : Column "user_agent" l.user_agent

action_width : (a : AuditAction) → Column "action" (some (action_code a))
action_width login_success = omega arith
action_width login_failure = omega arith
action_width logout = omega arith
action_width register = omega arith
action_width token_refreshed = omega arith
action_width token_reuse_detected = omega arith
action_width token_binding_mismatch = omega arith
action_width token_ip_changed = omega arith
action_width user_create = omega arith
action_width user_update = omega arith
action_width user_delete = omega arith
action_width role_assign = omega arith

outcome_width : (o : AuditOutcome) → Column "outcome" (some (outcome_code o))
outcome_width success = omega arith
outcome_width failure = omega arith

size-prefix : (n : ℕ) (s : String) → size (prefix n s) ≤ n
size-prefix zero s = omega arith
size-prefix (suc n) Text.[] = omega arith
size-prefix (suc n) (Text.◌∷◌ c s) = omega (arith, size-prefix n s)

user_agent_width : (a : Option String) → Column "user_agent" (truncate_user_agent a)
unfolding truncate_user_agent
user_agent_width none = refl
user_agent_width (some a) = elim (Bool-cases (str_eq a "")) [
  | inl e ↦ rw e refl
  | inr e ↦ rw e (size-prefix 512 a)
]

-- The events that the services record: of AuthService, and of AdminService about a user.
pub data Recorded : Type 0 where
  of_auth : AuditAction → AuditOutcome → Option Metadata → Recorded
  of_admin : AuditAction → (user_id : ℕ) → Option Metadata → Recorded

abbrev pub event_of : Recorded → Event
event_of (of_auth a o m) = event a o m
event_of (of_admin a id m) = user_event a id m

-- The key of the user that the event is about, if any, is a `BigAutoField`.
abbrev pub HasKey : Recorded → Type 0
HasKey (of_auth a o m) = Unit
HasKey (of_admin a id m) = id < 9223372036854775808

new_log-Fits :
    (r : Recorded) (c : AuditContext) (id t : ℕ)
    → HasKey r
    → Column "actor_email" c.actor_email
    → Fits (new_log id t (log_of (event_of r) c))
new_log-Fits (of_auth a o m) c id t k h = record {
  action = action_width a;
  actor_email = h;
  target_type = refl;
  target_id = refl;
  outcome = outcome_width o;
  user_agent = user_agent_width c.user_agent;
}
new_log-Fits (of_admin a n m) c id t k h = record {
  action = action_width a;
  actor_email = h;
  target_type = omega arith;
  target_id = omega (arith, size-str_of n k);
  outcome = outcome_width success;
  user_agent = user_agent_width c.user_agent;
}

-- The stored users have addresses that their column takes.
abbrev pub UsersFit : List User → Type 0
UsersFit = All (λ u. TakesIf (lookup "email" own_user_fields) (some u.email))

module _ (d : Deployment) where
  Completes-email :
      (c c' : AuditContext) (users : List User)
      → Completes d c users c'
      → Column "actor_email" c.actor_email
      → UsersFit users
      → Column "actor_email" c'.actor_email
  Completes-email c c' users (inl e) h fit =
      subst (λ x. Column "actor_email" x.actor_email) (sym e) h
  Completes-email c c' users (inr (id, u, found, e)) h fit =
      subst (λ x. Column "actor_email" x.actor_email) (sym e)
        (find-All (λ u. TakesIf (lookup "email" own_user_fields) (some u.email)) (Users.has_id id)
          users u found fit)

  -- Recording an event of the services keeps every row of the audit trail within the columns of
  -- `AuditLog` for texts: the action, the actor's address, the target, the outcome and the user agent,
  -- however long the client's user agent is. It is assumed that the stored users' addresses and the
  -- address in the context fit their columns, and that the key of the target is a 64-bit integer.
  pub record_event-Fits :
      (r : Recorded) (c : AuditContext) (w : World d)
      → HasKey r
      → Column "actor_email" c.actor_email
      → UsersFit w.db.users.rows
      → All Fits w.db.audit.rows
      → All Fits (record_event d (event_of r) c w).1.db.audit.rows
  record_event-Fits r c w k h users fit = elim (record_event-Written d (event_of r) c w) [
    | inl same ↦ subst (All Fits) (sym same) fit
    | inr (c', t, done, e) ↦ subst (All Fits) (sym e) (
        All-append Fits w.db.audit.rows (new_log w.db.audit.next_id t (log_of (event_of r) c') ∷ [])
          fit
          (
            new_log-Fits r c' w.db.audit.next_id t k
                (Completes-email c c' w.db.users.rows done h users),
            tt,
          ))
  ]
