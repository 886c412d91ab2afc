-- ===== src/Errors.antt =====
-- apps/common/exceptions.py, and the exceptions of Python, Django and Redis that the code names or
-- lets through.
use django_ninja_rbac_authen.Prelude.{ℕ, Option, none, some, String, str_eq, if◌then◌else◌}

-- The subclasses of `DomainError`.
pub data DomainClass : Type 0 where
  invalid_credentials token_reused refresh_token_binding_mismatch invalid_token : DomainClass
  permission_denied email_already_exists resource_not_found : DomainClass

abbrev pub status_code : DomainClass → ℕ
status_code invalid_credentials = 401
status_code token_reused = 401
status_code refresh_token_binding_mismatch = 401
status_code invalid_token = 401
status_code permission_denied = 403
status_code email_already_exists = 409
status_code resource_not_found = 404

abbrev pub error_code : DomainClass → String
error_code invalid_credentials = "invalid_credentials"
error_code token_reused = "token_reused"
error_code refresh_token_binding_mismatch = "refresh_token_binding_mismatch"
error_code invalid_token = "invalid_token"
error_code permission_denied = "permission_denied"
error_code email_already_exists = "email_already_exists"
error_code resource_not_found = "not_found"

abbrev pub default_detail : DomainClass → String
default_detail invalid_credentials = "Invalid email or password."
default_detail token_reused = "This refresh token has already been used."
default_detail refresh_token_binding_mismatch = "The token is invalid or expired."
default_detail invalid_token = "The token is invalid or expired."
default_detail permission_denied = "You do not have permission to perform this action."
default_detail email_already_exists = "An account with this email already exists."
default_detail resource_not_found = "The requested resource was not found."

pub record DomainError : Type 0 where
  pub kind : DomainClass
  pub detail : String

-- `DomainError.__init__`: an absent or empty detail gives the class's default.
abbrev pub domain_error : DomainClass → Option String → DomainError
domain_error c none = record { kind = c; detail = default_detail c }
domain_error c (some d) = record { kind = c; detail = if str_eq d "" then default_detail c else d }

-- `outage` is any failure of a server that the process talks to (Redis, the audit database);
-- `http_error` is Ninja's `HttpError` with its status, `request_invalid` its `ValidationError`, and
-- `schema_invalid` pydantic's, raised when a schema is built.
pub data Error : Type 0 where
  domain : DomainError → Error
  integrity_error outage : Error
  runtime_error : String → Error
  http_error : ℕ → Error
  request_invalid schema_invalid : Error
  command_error : String → Error
  improperly_configured : Error
  value_error type_error key_error os_error overflow_error invalid_token_error : Error

abbrev pub raised : DomainClass → Error
raised c = domain (domain_error c none)
