-- ===== src/Auth/Errors.antt =====
-- internal/module/auth/service/errors.go, and the error values of the services and repositories of the module.
use naralabs_atlas.Prelude.{Text}

-- `other` is an error that the program does not tell apart from others: its message, and the driver's behind it.
pub data AuthError : Type 0 where
  email_exists email_not_verified invalid_credentials invalid_token token_expired : AuthError
  resend_cooldown reset_cooldown same_password unauthorized : AuthError
  token_not_found token_limit : AuthError
  user_not_found row_not_found : AuthError
  other : Text → Text → AuthError
