-- ===== src/Tests/Views.antt =====
-- The theorems on the views at the concrete installation.
use django_ninja_rbac_authen.Prelude.{◌≡◌, refl, inl, inr, some, [], ◌∷◌, arith, pos, negsuc}
use django_ninja_rbac_authen.Errors.{raised, permission_denied, schema_invalid, invalid_token}
use django_ninja_rbac_authen.Effects.{ok, err}
use django_ninja_rbac_authen.Decimal.{str_of}
use django_ninja_rbac_authen.World.{World}
use django_ninja_rbac_authen.Users.{normalize_email}
use django_ninja_rbac_authen.Guard.{Principal, authenticate}
use django_ninja_rbac_authen.Api.Envelope.{Response, reply, answered, failure_response}
use django_ninja_rbac_authen.Api.Schemas.{RegisterIn, UserOut, PageOut}
use django_ninja_rbac_authen.Api.AuthRouter.{login, logout}
use django_ninja_rbac_authen.Api.AdminUsers.{list_users}
use django_ninja_rbac_authen.Api.Guards.{serve, user_deletion, admin_denied}
use django_ninja_rbac_authen.Api.Pages.{IsPage, list_users-IsPage, list_users_fails}
use django_ninja_rbac_authen.Api.Failures.{login_answer}
use django_ninja_rbac_authen.Api.LogoutEffect.{bearer, logout_refuses}
use django_ninja_rbac_authen.Tests.Installation.{demo, demo_world, demo_db, ada, bob, adas_claims}
use django_ninja_rbac_authen.Tests.Proxies.{plain_ip, proxies, direct}
use django_ninja_rbac_authen.Tests.Requests.{adas_claims-IsCarried}

abbrev reader : Principal
reader = record {
  user_id = 1;
  jti = "uuid-0";
  issued_at = pos 1700000000;
  expires_at = pos 1700000900;
  roles = [];
  permissions = "user.read" ∷ [];
}

admin_denied_example :
    serve demo plain_ip proxies (user_deletion 2) direct (some reader) demo_world
    ≡ (err (raised permission_denied), demo_world)
admin_denied_example =
    admin_denied demo plain_ip proxies (user_deletion 2) direct (some reader) demo_world refl

-- More rows are asked for than a page may have.
list_users-IsPage_example :
    (r : Response (PageOut UserOut)) × (page : PageOut UserOut) × (list_users demo plain_ip proxies
        (some reader)
        (negsuc 4)
        (pos 1000)
        demo_world
      ≡ (ok r, demo_world))
    × (r.body.content ≡ some page)
    × IsPage demo plain_ip proxies demo_world 0 100 page
list_users-IsPage_example =
    list_users-IsPage demo plain_ip proxies (some reader) (negsuc 4) (pos 1000) 0 100 demo_world
      refl ((λ e. ground (arith, e)), (λ e k. ground (arith, k)), λ e. refl) refl refl

-- A user without a domain in its address, as `bootstrap_admin` stores it.
abbrev world_with_root : World demo
world_with_root = record demo_world {
  db = record demo_db {
    users = record { rows = ada ∷ record bob { email = "root" } ∷ []; next_id = 3 };
  };
}

list_users_fails_example :
    list_users demo plain_ip proxies (some reader) (pos 0) (pos 20) world_with_root
    ≡ (err schema_invalid, world_with_root)
list_users_fails_example =
    list_users_fails demo plain_ip proxies (some reader) (pos 0) (pos 20) world_with_root refl refl

abbrev bobs_login : RegisterIn
bobs_login = record { email = "bob@example.com"; password = "builder" }

login_answer_example :
    reply (login demo plain_ip proxies direct bobs_login demo_world).0
    ≡ answered (failure_response 401)
unfolding normalize_email
login_answer_example =
    login_answer demo plain_ip proxies direct bobs_login demo_world (inr (bob, refl, inl refl))

-- The state a few calls after Ada's logout with this token.
abbrev logged_out : World demo
logged_out = record demo_world {
  redis =
      (logout demo plain_ip proxies direct (some (bearer demo plain_ip proxies 0 adas_claims))
        "live" demo_world).1.redis;
  calls = 10;
}

logout_refuses_example :
    (authenticate demo (demo.jwt.encode adas_claims "secret") logged_out).0
    ≡ err (raised invalid_token)
unfolding str_of
logout_refuses_example =
    logout_refuses demo plain_ip proxies 0 direct "live" demo_world logged_out adas_claims
      adas_claims-IsCarried refl (refl, refl, ground arith, ground arith, ground arith, refl)
      (ground arith) (ground arith)
