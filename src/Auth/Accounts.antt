-- ===== src/Auth/Accounts.antt =====
-- internal/module/auth/service/auth_service.go: AuthService.
pub mod Login
pub mod Reset
pub mod Parts
pub mod Single
pub mod Links
pub mod Calls
use naralabs_atlas.Prelude.{
  ℕ, ◌+◌, ◌/◌, ◌&&◌, ◌||◌, Bool, true, false, not, Option, none, some, List, [], ◌∷◌, ◌++◌, reverse,
  Text, text, text_eq, has_prefix, contains, is_empty, to_lower, trim_space, trim_prefix, ltb, leb,
  ◌==◌, length, Result, ok, err, if◌then◌else◌,
}
use naralabs_atlas.Auth.Errors.{
  AuthError, email_exists, email_not_verified, invalid_credentials, invalid_token, token_expired,
  resend_cooldown, reset_cooldown, same_password, unauthorized, user_not_found, other,
}
use naralabs_atlas.Auth.Users.{
  User, Link, Mail, verification_mail, reset_mail, Accounts, UserPublic, user_public, create_user,
  get_user_by_email, get_user_by_id, update_password_hash,
}
use naralabs_atlas.Auth.Links.{
  invalidate_active_verification_tokens, invalidate_active_password_reset_tokens,
  create_verification_token, create_password_reset_token, latest_active_verification_created_at,
  latest_active_password_reset_created_at, consume_verification_token, consume_password_reset_token,
}
use naralabs_atlas.Database.{
  Query, pure, raise, ◌>>=◌, ◌>>◌, catch, of_option, update, now, random_text,
}
use naralabs_atlas.Auth.Sessions.{
  AuthEnv, Session, hash_token, validate_password, consume_error, missing_as, validate_email,
  send_password_reset_email, send_verification_email, issue_session, parse_token, hash_password,
}

module _ (env : AuthEnv) where
  abbrev pub duplicate_as : AuthError → AuthError
  duplicate_as (other message e) =
      if text_eq e (text "23505") then email_exists else other message e
  duplicate_as error = error

  -- Register
  unfoldable pub register : Text → Text → Text → Query AuthError Accounts (UserPublic × Bool)
  unfolding validate_email validate_password hash_password
  register email password callback_url = do
    validate_email env email
    validate_password password
    hash ← hash_password env password
    user ← catch (create_user env.uuid email hash) (λ e. raise (duplicate_as e))
    send_verification_email env user callback_url
    pure (user_public user, true)

  unfoldable pub issue_verified : User → Option ℕ → Query AuthError Accounts Session
  unfolding issue_session
  issue_verified user none = raise email_not_verified
  issue_verified user (some t) = issue_session env user

  -- Login
  unfoldable pub login : Text → Text → Query AuthError Accounts Session
  unfolding issue_verified
  login email password = do
    user ← catch (get_user_by_email email) (λ e. raise (missing_as invalid_credentials e))
    (if not (env.matches user.password_hash password)
        then raise invalid_credentials
        else issue_verified user user.email_verified_at)

  -- VerifyEmail and ResetPassword read the hash of the token from a request.
  unfoldable pub token_hash : Text → Query AuthError Accounts Text
  unfolding hash_token
  token_hash raw = of_option invalid_token (hash_token env.sha256_hex raw)

  -- VerifyEmail
  unfoldable pub verify_email : Text → Query AuthError Accounts Session
  unfolding token_hash issue_session
  verify_email raw = do
    hash ← token_hash raw
    t ← now
    user ← catch (consume_verification_token hash t) (λ e. raise (consume_error e))
    issue_session env user

  -- elapsed < cooldown
  unfoldable pub cooling : ℕ → ℕ → Option ℕ → Bool
  cooling t cooldown none = false
  cooling t cooldown (some latest) = ltb t (latest + cooldown)

  -- The clock is read where there is an open link; 0 is not used.
  unfoldable pub read_clock : Option ℕ → Query AuthError Accounts ℕ
  read_clock none = pure 0
  read_clock (some a) = now

  unfoldable pub resend_to : User → Text → Query AuthError Accounts Bool
  unfolding cooling read_clock send_verification_email
  resend_to user callback_url = do
    latest ← latest_active_verification_created_at user.id
    t ← read_clock latest
    (if cooling t env.verification_resend_cooldown latest
        then raise resend_cooldown
        else (send_verification_email env user callback_url >> pure false))

  unfoldable pub resend_unverified : User → Text → Option ℕ → Query AuthError Accounts Bool
  unfolding resend_to
  resend_unverified user callback_url none = resend_to user callback_url
  resend_unverified user callback_url (some t) = pure true

  unfoldable pub resend_found : Text → Option User → Query AuthError Accounts Bool
  unfolding resend_unverified
  resend_found callback_url none = pure false
  resend_found callback_url (some user) = resend_unverified user callback_url user.email_verified_at

  unfoldable pub absent : AuthError → Query AuthError Accounts (Option User)
  absent user_not_found = pure none
  absent e = raise e

  -- GetUserByEmail where the caller answers for an unknown address too: `none` is ErrUserNotFound.
  unfoldable pub known_user : Text → Query AuthError Accounts (Option User)
  unfolding absent
  known_user email = catch (get_user_by_email email >>= λ user. pure (some user)) absent

  -- ResendVerification
  unfoldable pub resend_verification : Text → Text → Query AuthError Accounts Bool
  unfolding known_user resend_found
  resend_verification email callback_url = known_user email >>= resend_found callback_url

  -- ParseUserID, as the methods of the service use it
  unfoldable pub caller : Text → Query AuthError Accounts Text
  unfolding parse_token
  caller authorization = do t ← now; of_option unauthorized (parse_token env t authorization)

  unfoldable pub caller_user : Text → Query AuthError Accounts User
  unfolding caller
  caller_user authorization = do
    id ← caller authorization
    catch (get_user_by_id id) (λ e. raise (missing_as unauthorized e))

  -- Me
  unfoldable pub me : Text → Query AuthError Accounts UserPublic
  unfolding caller_user
  me authorization = do user ← caller_user authorization; pure (user_public user)

  unfoldable pub require : AuthError → Bool → Query AuthError Accounts (Unit {0})
  require e b = if b then pure tt else raise e

  -- ChangePassword
  unfoldable pub change_password : Text → Text → Text → Query AuthError Accounts (Unit {0})
  unfolding caller_user require validate_password hash_password
  change_password authorization current new = do
    user ← caller_user authorization
    require invalid_credentials (env.matches user.password_hash current)
    validate_password new
    require same_password (not (env.matches user.password_hash new))
    hash ← hash_password env new
    t ← now
    update_password_hash user.id hash
    invalidate_active_password_reset_tokens user.id t

  unfoldable pub reset_found : Option User → Query AuthError Accounts (Unit {0})
  unfolding cooling read_clock send_password_reset_email
  reset_found none = pure tt
  reset_found (some user) = do
    latest ← latest_active_password_reset_created_at user.id
    t ← read_clock latest
    (if cooling t env.reset_resend_cooldown latest
        then raise reset_cooldown
        else send_password_reset_email env user)

  -- RequestPasswordReset
  unfoldable pub request_password_reset : Text → Query AuthError Accounts (Unit {0})
  unfolding validate_email known_user reset_found
  request_password_reset email = do
    validate_email env email
    found ← known_user email
    reset_found found

  -- ResetPassword
  unfoldable pub reset_password : Text → Text → Query AuthError Accounts Session
  unfolding validate_password token_hash hash_password issue_session
  reset_password raw new = do
    validate_password new
    hash ← token_hash raw
    t ← now
    user ← catch (consume_password_reset_token hash t) (λ e. raise (consume_error e))
    password_hash ← hash_password env new
    update_password_hash user.id password_hash
    updated ← get_user_by_id user.id
    issue_session env updated
