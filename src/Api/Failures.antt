-- ===== src/Api/Failures.antt =====
-- config/api.py: what a client learns from an error.
use django_ninja_rbac_authen.Prelude.{
  ℕ, ◌≡◌, refl, ap, false, Option, none, some, List, String, arith,
}
use django_ninja_rbac_authen.Errors.{Error, domain, http_error, request_invalid, status_code}
use django_ninja_rbac_authen.Effects.{Result, err}
use django_ninja_rbac_authen.Effects.Continue.{continue-failed}
use django_ninja_rbac_authen.Platform.{Deployment}
use django_ninja_rbac_authen.World.{World}
use django_ninja_rbac_authen.AuditLogs.{AuditContext}
use django_ninja_rbac_authen.ClientIp.{IpLibrary, Request, from_request}
use django_ninja_rbac_authen.AuthService.Login.{IsRefused, login_refused}
use django_ninja_rbac_authen.Api.Schemas.{RegisterIn, TokenPairOut}
use django_ninja_rbac_authen.Api.AuthRouter.{login}
use django_ninja_rbac_authen.Api.Envelope.{
  Response, answered, failure_response, safe_error_message, handle_domain_error, handle_http_error,
  handle_validation_error, reply,
}

-- The status of an error that has a handler.
unfoldable pub handled_status : Error → Option ℕ
handled_status (domain e) = some (status_code e.kind)
handled_status (http_error status) = some status
handled_status request_invalid = some 422
handled_status e = none

-- The envelope of a failure, which depends on nothing but the status.
abbrev pub IsFailure : {A : Type 0} → ℕ → Response A → Type 0
IsFailure status r =
    (r.status ≡ status)
    × (r.body.success ≡ false)
    × (r.body.code ≡ status)
    × (r.body.message ≡ safe_error_message status)
    × (r.body.content ≡ none)

failure_response-IsFailure :
    {A : Type 0} (status status' : ℕ)
    → some status ≡ some status'
    → (r : Response A) × (answered (failure_response {A = A} status) ≡ answered r)
      × IsFailure status' r
failure_response-IsFailure status status' h =
    let same : status ≡ status' = ground (arith, h) in
    (failure_response status, refl, (same, refl, same, ap safe_error_message same, refl))

-- An error that a handler takes is answered with its status and the envelope of that status.
pub reply-IsFailure :
    {A : Type 0} (e : Error) (status : ℕ)
    → handled_status e ≡ some status
    → (r : Response A) × (reply (err e) ≡ answered r) × IsFailure status r
unfolding handled_status reply handle_domain_error handle_http_error handle_validation_error
reply-IsFailure (domain e) status h = failure_response-IsFailure (status_code e.kind) status h
reply-IsFailure (http_error s) status h = failure_response-IsFailure s status h
reply-IsFailure request_invalid status h = failure_response-IsFailure 422 status h
reply-IsFailure e status h = absurd (ground (arith, h))

module _ (d : Deployment) (ip : IpLibrary) (cidrs : List String) where
  -- A login that is refused for its credentials (no account, a deactivated one, or a password that
  -- the hash does not accept) gets the same answer whatever the reason: the failure envelope with
  -- status 401.
  pub login_answer :
      (request : Request) (payload : RegisterIn) (w : World d)
      → IsRefused d payload.email payload.password w
      → reply (login d ip cidrs request payload w).0 ≡ answered (failure_response 401)
  unfolding login reply handle_domain_error
  login_answer request payload w h =
      let context : AuditContext = from_request ip cidrs request none in
      let (refused, _) = login_refused d payload.email payload.password context w h in
      ap (λ (r : Result (Response TokenPairOut) × World d). reply r.0)
        (continue-failed _ _ _ refused)
