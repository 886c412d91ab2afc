-- ===== src/AuditLogs.antt =====
-- apps/audit: the action catalogue, the request context, the AuditLog rows and the append-only
-- repository over them.
pub mod Listing
use Prim.Native.String as Text
use django_ninja_rbac_authen.Prelude.{
  ℕ, zero, suc, ◌+◌, Bool, true, false, ◌&&◌, ◌||◌, Option, none, some, List, [], ◌∷◌, ◌++◌, String,
  str_eq, ◌==◌, leb, ltb, find, select, length, map, take, drop, if◌then◌else◌,
}
use django_ninja_rbac_authen.Effects.{ok, Action, gets}
use django_ninja_rbac_authen.Metadata.{Metadata}

pub data AuditAction : Type 0 where
  login_success login_failure logout register token_refreshed token_reuse_detected : AuditAction
  token_binding_mismatch token_ip_changed user_create user_update user_delete : AuditAction
  role_assign : AuditAction

-- `str(action)`
abbrev pub action_code : AuditAction → String
action_code login_success = "login.success"
action_code login_failure = "login.failure"
action_code logout = "logout"
action_code register = "register"
action_code token_refreshed = "token.refreshed"
action_code token_reuse_detected = "token.reuse_detected"
action_code token_binding_mismatch = "token.binding_mismatch"
action_code token_ip_changed = "token.ip_changed"
action_code user_create = "user.create"
action_code user_update = "user.update"
action_code user_delete = "user.delete"
action_code role_assign = "role.assign"

pub record AuditContext : Type 0 where
  pub actor_id : Option ℕ
  pub actor_email : Option String
  pub ip : Option String
  pub user_agent : Option String
  pub request_id : Option String

pub record AuditLog : Type 0 where
  pub id : ℕ
  pub created_at : ℕ
  pub action : String
  pub actor_id : Option ℕ
  pub actor_email : Option String
  pub target_type : Option String
  pub target_id : Option String
  pub outcome : String
  pub ip : Option String
  pub user_agent : Option String
  pub metadata : Metadata

pub record AuditTable : Type 0 where
  pub rows : List AuditLog
  pub next_id : ℕ

-- The arguments of `AuditRepository.acreate`.
pub record NewAuditLog : Type 0 where
  pub action : String
  pub actor_id : Option ℕ
  pub actor_email : Option String
  pub target_type : Option String
  pub target_id : Option String
  pub outcome : String
  pub ip : Option String
  pub user_agent : Option String
  pub metadata : Metadata

abbrev pub new_log : ℕ → ℕ → NewAuditLog → AuditLog
new_log id created_at n = record {
  id = id;
  created_at = created_at;
  action = n.action;
  actor_id = n.actor_id;
  actor_email = n.actor_email;
  target_type = n.target_type;
  target_id = n.target_id;
  outcome = n.outcome;
  ip = n.ip;
  user_agent = n.user_agent;
  metadata = n.metadata;
}

pub record AuditLogDto : Type 0 where
  pub id : ℕ
  pub created_at : ℕ
  pub action : String
  pub actor_id : Option ℕ
  pub actor_email : Option String
  pub target_type : Option String
  pub target_id : Option String
  pub outcome : String
  pub ip : Option String
  pub user_agent : Option String
  pub metadata : Metadata

-- `_audit_log_dto`
abbrev pub audit_log_dto : AuditLog → AuditLogDto
audit_log_dto l = record {
  id = l.id;
  created_at = l.created_at;
  action = l.action;
  actor_id = l.actor_id;
  actor_email = l.actor_email;
  target_type = l.target_type;
  target_id = l.target_id;
  outcome = l.outcome;
  ip = l.ip;
  user_agent = l.user_agent;
  metadata = l.metadata;
}

abbrev log? : Option AuditLog → Option AuditLogDto
log? none = none
log? (some l) = some (audit_log_dto l)

-- `AuditRepository.acreate` at an instant
unfoldable pub acreate : ℕ → NewAuditLog → Action AuditTable AuditLogDto
acreate created_at n s = (
  ok (audit_log_dto (new_log s.next_id created_at n)),
  record { rows = s.rows ++ new_log s.next_id created_at n ∷ []; next_id = s.next_id + 1 },
)

unfoldable pub aget_by_id : ℕ → Action AuditTable (Option AuditLogDto)
aget_by_id audit_log_id = gets (λ s. log? (find (λ r. r.id == audit_log_id) s.rows))

-- The filters of `alist`; an absent one lets every row pass.
pub record AuditFilter : Type 0 where
  pub actor_id : Option ℕ
  pub action : Option String
  pub outcome : Option String
  pub from_at : Option ℕ
  pub to_at : Option ℕ

abbrev pub passes {ℓ} : {A : Type ℓ} → Option A → (A → Bool) → Bool
passes none test = true
passes (some a) test = test a

abbrev pub is_actor : Option ℕ → ℕ → Bool
is_actor none a = false
is_actor (some b) a = b == a

abbrev pub matches : AuditFilter → AuditLog → Bool
matches f r =
    passes f.actor_id (is_actor r.actor_id)
    && passes f.action (str_eq r.action)
    && passes f.outcome (str_eq r.outcome)
    && passes f.from_at (λ t. leb t r.created_at)
    && passes f.to_at (leb r.created_at)

-- `order_by("-created_at", "-id")`
abbrev pub is_newer : AuditLog → AuditLog → Bool
is_newer a b = ltb b.created_at a.created_at || (b.created_at == a.created_at && ltb b.id a.id)

unfoldable pub insert_newest_first : AuditLog → List AuditLog → List AuditLog
insert_newest_first r [] = r ∷ []
insert_newest_first r (q ∷ qs) =
    let rest = insert_newest_first r qs in if is_newer q r then q ∷ rest else r ∷ q ∷ qs

unfoldable pub newest_first : List AuditLog → List AuditLog
unfolding insert_newest_first
newest_first [] = []
newest_first (r ∷ rs) = insert_newest_first r (newest_first rs)

unfoldable pub alist : ℕ → ℕ → AuditFilter → Action AuditTable (List AuditLogDto × ℕ)
unfolding newest_first
alist offset limit f = gets (λ s.
    let found = select (matches f) s.rows in
    (map audit_log_dto (take limit (drop offset (newest_first found))), length found))

-- `text[:n]`
abbrev pub prefix : ℕ → String → String
prefix zero s = Text.[]
prefix (suc n) Text.[] = Text.[]
prefix (suc n) (Text.◌∷◌ c s) = Text.◌∷◌ c (prefix n s)

-- `_truncate_user_agent`
unfoldable pub truncate_user_agent : Option String → Option String
truncate_user_agent none = none
truncate_user_agent (some a) = if str_eq a "" then none else some (prefix 512 a)
