-- ===== src/Tests/Laws.antt =====
-- The theorems on the blocklist, the tables and the audit trail at concrete inputs.
use django_ninja_rbac_authen.Prelude.{
  ◌≡◌, refl, true, false, [], arith, pos, is_none, ltb, ◌*◌, if◌then◌else◌,
}
use django_ninja_rbac_authen.Effects.{ok}
use django_ninja_rbac_authen.Blocklist.{Link, token_key, revoke_user, is_blocked}
use django_ninja_rbac_authen.Blocklist.Epoch.{revoke_user-is_blocked}
use django_ninja_rbac_authen.Metadata.{Metadata, str, obj, field, end, sanitize_metadata}
use django_ninja_rbac_authen.Metadata.Sanitized.{IsClean, sanitize_metadata-IsClean}
use django_ninja_rbac_authen.AuditLogs.{login_failure}
use django_ninja_rbac_authen.AuditService.{Event, failure, record_event}
use django_ninja_rbac_authen.AuditService.Effect.{OnlyLogs, record_event-OnlyLogs}
use django_ninja_rbac_authen.AuthService.{event, single}
use django_ninja_rbac_authen.Tests.Redis.{list_server}
use django_ninja_rbac_authen.Tests.Installation.{demo, demo_world, from_browser}

abbrev early : Link
early = record { up = true; now = 1000000 }

abbrev late : Link
late = record { up = true; now = 2000000 }

abbrev down : Link
down = record { up = false; now = 1000000 }

revoke_user-is_blocked_example :
    let s' = (revoke_user list_server early 1 1500000 900 []).1 in
    ((is_blocked list_server late "a" 1 (pos 1) s').0
      ≡ ok (
          if is_none (list_server.get [] (token_key "a") 2000000)
          then ltb (1 * 1000000) 1500000
          else true))
    × ((is_blocked list_server late "a" 2 (pos 1) s').0
        ≡ (is_blocked list_server late "a" 2 (pos 1) []).0)
revoke_user-is_blocked_example =
    revoke_user-is_blocked list_server early late "a" 1 2 1500000 900 1 [] refl refl (ground arith)
      (ground arith) (ground arith) (λ e. ground arith)

abbrev failed : Event
failed = event login_failure failure (single "password" "hunter2")

record_event-OnlyLogs_example :
    ((record_event demo failed from_browser demo_world).0 ≡ ok tt)
    × OnlyLogs demo failed demo_world (record_event demo failed from_browser demo_world).1
record_event-OnlyLogs_example = record_event-OnlyLogs demo failed from_browser demo_world

abbrev request : Metadata
request =
    field "path" (str "/login") (field "body" (obj (field "newPassword" (str "hunter2") end)) end)

sanitize_metadata-IsClean_example :
    IsClean (sanitize_metadata request)
    × (sanitize_metadata (sanitize_metadata request) ≡ sanitize_metadata request)
sanitize_metadata-IsClean_example = sanitize_metadata-IsClean request
