-- ===== src/Tests/Enrolment.antt =====
-- Registering, logging in, assigning a role and deleting a user at the concrete installation.
use Prim.Native.String as Text
use text.Mathlib.TextLemmas.{cons-append}
use django_ninja_rbac_authen.Prelude.{◌≡◌, ◌≢◌, refl, sym, ◌∙◌, true, some, any, String, eq_refl}
use django_ninja_rbac_authen.Effects.{ok, err}
use django_ninja_rbac_authen.Decimal.{str_of}
use django_ninja_rbac_authen.Users.{normalize_email, user_dto_from_model}
use django_ninja_rbac_authen.Rbac.{Role, is_link}
use django_ninja_rbac_authen.AuditLogs.{acreate}
use django_ninja_rbac_authen.AuthService.{register_user}
use django_ninja_rbac_authen.AuthService.Opening.{IsOpened}
use django_ninja_rbac_authen.AuthService.Enrolment.{Hashes, CanEnrol, enrolled, register-login}
use django_ninja_rbac_authen.AdminService.{assign_role, delete_user}
use django_ninja_rbac_authen.AdminService.Assignment.{Assigns, assign_role-Assigns}
use django_ninja_rbac_authen.AdminService.Deletion.{delete_user-ends}
use django_ninja_rbac_authen.Errors.{raised, invalid_token}
use django_ninja_rbac_authen.Sessions.{refresh}
use django_ninja_rbac_authen.Tests.Installation.{
  demo, demo_world, bob, live_token, from_browser, from_elsewhere,
}
use django_ninja_rbac_authen.Tests.Tokens.{demo_tokens-IsValid}

abbrev user_role : Role
user_role = record { id = 2; name = "user" }

usable_hash : (s : String) → Text.◌++◌ "hash:" s ≢ ""
usable_hash s h = cc (sym (cons-append "h" "ash:" s) ∙ h)

demo-Hashes : Hashes demo
demo-Hashes = record {
  accepts = λ n s. eq_refl (Text.◌++◌ "hash:" s);
  usable = λ n s. usable_hash s;
}

demo-CanEnrol : CanEnrol demo "eve@example.com" user_role demo_world
unfolding normalize_email
demo-CanEnrol = record { default_role = refl; address_free = refl; link_free = refl }

register-login_example :
    let after = register_user demo "eve@example.com" "mallory1" from_browser true demo_world in
    (after.0 ≡ ok (user_dto_from_model (enrolled demo "eve@example.com" "mallory1" demo_world)))
    × (any (is_link 3 2) after.1.db.rbac.user_roles ≡ true)
    × IsOpened demo "eve@example.com" "mallory1" from_elsewhere
        (enrolled demo "eve@example.com" "mallory1" demo_world)
        after.1
unfolding register_user str_of normalize_email acreate
register-login_example =
    register-login demo "eve@example.com" "mallory1" from_browser user_role demo_world demo-CanEnrol
      from_elsewhere demo-Hashes (refl, (refl, (refl, (refl, tt))))

abbrev admin_role : Role
admin_role = record { id = 1; name = "admin" }

assign_role-Assigns_example :
    Assigns demo 2 1 2 "users.write" demo_world
      (assign_role demo 2 1 from_browser demo_world)
      (some bob)
      (some admin_role)
assign_role-Assigns_example = assign_role-Assigns demo 2 1 from_browser demo_world 2 "users.write"

delete_user-ends_example :
    let after = delete_user demo 1 from_browser demo_world in
    (after.0 ≡ ok tt)
    × ((refresh demo "live" from_elsewhere after.1).0 ≡ err (raised invalid_token))
    × (after.1.redis ≡ demo_world.redis)
delete_user-ends_example =
    delete_user-ends demo 1 from_browser demo_world "live" from_elsewhere live_token refl
      demo_tokens-IsValid refl refl
