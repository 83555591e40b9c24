-- ===== src/Session/Errors.antt =====
-- core/exceptions.py and the two handlers of main.py: what a raise becomes for the caller.
use support_endpoint.Prelude.{ℕ, String}

-- The subclasses of AppError, each with its message, and any other exception that a library
-- raises (an IntegrityError names the constraint).
pub data Error : Type 0 where
  not_found conflict validation authentication authorization rate_limited : String → Error
  unhandled : String → Error

pub data Result (A : Type 0) : Type 0 where
  ok : A → Result A
  err : Error → Result A

-- The status code of the response to a raise.
unfoldable pub status_code : Error → ℕ
status_code (not_found m) = 404
status_code (conflict m) = 409
status_code (validation m) = 422
status_code (authentication m) = 401
status_code (authorization m) = 403
status_code (rate_limited m) = 429
status_code (unhandled m) = 500

unfoldable pub error_code : Error → String
error_code (not_found m) = "not_found"
error_code (conflict m) = "conflict"
error_code (validation m) = "validation_error"
error_code (authentication m) = "authentication_error"
error_code (authorization m) = "authorization_error"
error_code (rate_limited m) = "rate_limited"
error_code (unhandled m) = "internal_error"

unfoldable pub message : Error → String
message (not_found m) = m
message (conflict m) = m
message (validation m) = m
message (authentication m) = m
message (authorization m) = m
message (rate_limited m) = m
message (unhandled m) = "An unexpected error occurred"
