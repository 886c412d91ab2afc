-- ===== src/Api/Envelope.antt =====
-- apps/common/api: the envelope of every response and the health view; config/api.py: the exception
-- handlers.
use django_ninja_rbac_authen.Prelude.{
  ℕ, Bool, true, false, Option, none, some, String, ◌==◌, if◌then◌else◌,
}
use django_ninja_rbac_authen.Errors.{
  Error, DomainError, domain, http_error, request_invalid, status_code,
}
use django_ninja_rbac_authen.Effects.{Result, ok, err}

-- `BuildResponse`; `content` is its field `data`.
pub record Envelope (A : Type 0) : Type 0 where
  pub success : Bool
  pub code : ℕ
  pub message : String
  pub content : Option A

-- `success_response`
abbrev pub success_response : {A : Type 0} → Option A → ℕ → String → Envelope A
success_response content code message = record {
  success = true;
  code = code;
  message = message;
  content = content;
}

-- A response with its HTTP status.
pub record Response (A : Type 0) : Type 0 where
  pub status : ℕ
  pub body : Envelope A

-- `_safe_error_message`
unfoldable pub safe_error_message : ℕ → String
safe_error_message status =
    if status == 401
    then "Authentication failed."
    else if status == 403
    then "Access denied."
    else if status == 422
    then "Invalid request."
    else if status == 429
    then "Too many requests."
    else "Request could not be completed."

module _ {A : Type 0} where
  abbrev pub failure_response : ℕ → Response A
  failure_response status = record {
    status = status;
    body = record {
      success = false;
      code = status;
      message = safe_error_message status;
      content = none;
    };
  }

  unfoldable pub handle_domain_error : DomainError → Response A
  handle_domain_error e = failure_response (status_code e.kind)

  unfoldable pub handle_http_error : ℕ → Response A
  handle_http_error status = failure_response status

  unfoldable pub handle_validation_error : Response A
  handle_validation_error = failure_response 422

-- What Ninja does with a view's result: it answers with the view's status, calls the handler of the
-- exception's class, or lets the exception through to Django.
pub data Reply (A : Type 0) : Type 0 where
  answered : Response A → Reply A
  unhandled : Error → Reply A

unfoldable pub reply : {A : Type 0} → Result (Response A) → Reply A
unfolding handle_domain_error handle_http_error handle_validation_error
reply (ok r) = answered r
reply (err (domain e)) = answered (handle_domain_error e)
reply (err (http_error status)) = answered (handle_http_error status)
reply (err request_invalid) = answered handle_validation_error
reply (err e) = unhandled e

abbrev pub fine : {A : Type 0} → Envelope A → Response A
fine body = record { status = 200; body = body }

abbrev pub created : {A : Type 0} → Envelope A → Response A
created body = record { status = 201; body = body }

pub record Health : Type 0 where
  pub status : String

-- `health`
unfoldable pub health : Response Health
health = fine (success_response (some (record { status = "ok" })) 200 "Service is healthy.")
