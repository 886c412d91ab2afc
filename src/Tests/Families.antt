-- ===== src/Tests/Families.antt =====
-- The sessions of the concrete table.
use django_ninja_rbac_authen.Prelude.{refl, true}
use django_ninja_rbac_authen.RefreshTokens.{rotated, arotate}
use django_ninja_rbac_authen.RefreshTokens.Refinement.{RotatesSessions, rotate_refines}
use django_ninja_rbac_authen.Tests.Installation.{demo_tokens}
use django_ninja_rbac_authen.Tests.Tokens.{exchange, exchanged, demo_tokens-IsValid}

rotate_refines_example :
    RotatesSessions exchange rotated demo_tokens (arotate true exchange demo_tokens).1
unfolding arotate
rotate_refines_example = rotate_refines true exchange demo_tokens exchanged demo_tokens-IsValid refl
