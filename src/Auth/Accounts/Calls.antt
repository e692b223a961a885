-- ===== src/Auth/Accounts/Calls.antt =====
-- The calls of internal/module/auth/service/auth_service.go, one after the other, and the links that are open.
use naralabs_atlas.Prelude.{ℕ, Bool, true, false, not, Option, none, some, List, [], ◌∷◌, Text}
use naralabs_atlas.Auth.Errors.{
  AuthError, invalid_token, unauthorized, user_not_found, other, resend_cooldown, reset_cooldown,
  invalid_credentials, same_password, email_not_verified, email_exists, row_not_found,
  token_expired, token_limit, token_not_found,
}
use naralabs_atlas.Auth.Users.{User, user_public, Accounts, to_reset}
use naralabs_atlas.Auth.Links.{
  invalidate_active_password_reset_tokens, is_open_of, invalidate,
  latest_active_verification_created_at, latest_active_password_reset_created_at,
}
use naralabs_atlas.Database.{Db}
use naralabs_atlas.Database.Keeps.{
  Keeps, bind-Keeps, catch-Keeps, if-Keeps, statement-Keeps, select-Keeps, pure-Keeps, raise-Keeps,
  now-Keeps,
}
use naralabs_atlas.Auth.Accounts.{
  issue_verified, read_clock, absent, resend_unverified, duplicate_as, known_user, resend_to,
  resend_found, require, reset_found, cooling, register, login, verify_email, resend_verification,
  me, change_password, request_password_reset, reset_password,
}
use naralabs_atlas.Auth.Sessions.{AuthEnv, missing_as, consume_error}
use naralabs_atlas.Auth.Accounts.Single.{Single, consume-Single}
use naralabs_atlas.Auth.Accounts.Parts.{
  get_user_by_email-Keeps, get_user_by_id-Keeps, validate_password-Keeps, validate_email-Keeps,
  issue_session-Keeps, hash_password-Keeps, token_hash-Keeps, caller_user-Keeps,
}
use naralabs_atlas.Auth.Accounts.Links.{
  send_password_reset_email-Keeps, send_verification_email-Keeps, consume_verification_token-Keeps,
  consume_password_reset_token-Keeps, update_password_hash-Keeps, create_user-Keeps,
}

-- A call that a client makes
pub data Call : Type 0 where
  registers : (email password callback_url : Text) → Call
  logs_in : (email password : Text) → Call
  verifies : (raw : Text) → Call
  resends : (email callback_url : Text) → Call
  asks_me : (authorization : Text) → Call
  changes : (authorization current new : Text) → Call
  forgets : (email : Text) → Call
  resets_with : (raw new : Text) → Call

-- The state after a call, whatever the call returns.
unfoldable pub run : AuthEnv → Call → Db Accounts → Db Accounts
run env (registers email password callback_url) db = (register env email password callback_url db).1
run env (logs_in email password) db = (login env email password db).1
run env (verifies raw) db = (verify_email env raw db).1
run env (resends email callback_url) db = (resend_verification env email callback_url db).1
run env (asks_me authorization) db = (me env authorization db).1
run env (changes authorization current new) db =
    (change_password env authorization current new db).1
run env (forgets email) db = (request_password_reset env email db).1
run env (resets_with raw new) db = (reset_password env raw new db).1

unfoldable pub run_all : AuthEnv → List Call → Db Accounts → Db Accounts
unfolding run
run_all env [] db = db
run_all env (c ∷ cs) db = run_all env cs (run env c db)

module _ (env : AuthEnv) where
  absent-Keeps : (e : AuthError) → Keeps Single (absent env e)
  unfolding absent Keeps
  absent-Keeps user_not_found db h = h
  absent-Keeps email_exists db h = h
  absent-Keeps email_not_verified db h = h
  absent-Keeps invalid_credentials db h = h
  absent-Keeps invalid_token db h = h
  absent-Keeps token_expired db h = h
  absent-Keeps resend_cooldown db h = h
  absent-Keeps reset_cooldown db h = h
  absent-Keeps same_password db h = h
  absent-Keeps unauthorized db h = h
  absent-Keeps token_not_found db h = h
  absent-Keeps token_limit db h = h
  absent-Keeps row_not_found db h = h
  absent-Keeps (other message e) db h = h

  known_user-Keeps : (email : Text) → Keeps Single (known_user env email)
  unfolding known_user
  known_user-Keeps email =
      catch-Keeps Single _ _
        (bind-Keeps Single _ _ (get_user_by_email-Keeps Single email)
          (λ user. pure-Keeps AuthError Single (some user)))
        absent-Keeps

  register-Keeps :
      (email password callback_url : Text) → Keeps Single (register env email password callback_url)
  unfolding register
  register-Keeps email password callback_url =
      bind-Keeps Single _ _ (validate_email-Keeps env Single email) (λ u.
        bind-Keeps Single _ _ (validate_password-Keeps Single password) (λ u.
          bind-Keeps Single _ _ (hash_password-Keeps env Single password) (λ hash.
            bind-Keeps Single _ _
              (catch-Keeps Single _ _ (create_user-Keeps env email hash)
                (λ e. raise-Keeps Single _ (duplicate_as env e)))
              (λ user.
                bind-Keeps Single _ _ (send_verification_email-Keeps env user callback_url)
                  (λ u. pure-Keeps AuthError Single (user_public user, true))))))

  verified-Keeps : (user : User) (v : Option ℕ) → Keeps Single (issue_verified env user v)
  unfolding issue_verified
  verified-Keeps user none = raise-Keeps Single _ email_not_verified
  verified-Keeps user (some t) = issue_session-Keeps env Single user

  login-Keeps : (email password : Text) → Keeps Single (login env email password)
  unfolding login
  login-Keeps email password =
      bind-Keeps Single _ _
        (catch-Keeps Single _ _ (get_user_by_email-Keeps Single email)
          (λ e. raise-Keeps Single _ (missing_as invalid_credentials e)))
        (λ (user : User).
          if-Keeps Single (not (env.matches user.password_hash password)) _ _
            (raise-Keeps Single _ invalid_credentials) (verified-Keeps user user.email_verified_at))

  verify_email-Keeps : (raw : Text) → Keeps Single (verify_email env raw)
  unfolding verify_email
  verify_email-Keeps raw = bind-Keeps Single _ _ (token_hash-Keeps env Single raw) (λ hash.
      bind-Keeps Single _ _ (now-Keeps AuthError Single) (λ t.
        bind-Keeps Single _ _
          (catch-Keeps Single _ _ (consume_verification_token-Keeps env hash t)
            (λ e. raise-Keeps Single _ (consume_error e)))
          (λ user. issue_session-Keeps env Single user)))

  when-Keeps : (latest : Option ℕ) → Keeps Single (read_clock env latest)
  unfolding read_clock
  when-Keeps none = pure-Keeps AuthError Single 0
  when-Keeps (some l) = now-Keeps AuthError Single

  resend_to-Keeps :
      (user : User) (callback_url : Text) → Keeps Single (resend_to env user callback_url)
  unfolding resend_to latest_active_verification_created_at
  resend_to-Keeps user callback_url = bind-Keeps Single _ _ (select-Keeps Single _ _) (λ latest.
      bind-Keeps Single _ _ (when-Keeps latest) (λ t.
        if-Keeps Single (cooling env t env.verification_resend_cooldown latest) _ _
          (raise-Keeps Single _ resend_cooldown)
          (bind-Keeps Single _ _ (send_verification_email-Keeps env user callback_url)
            (λ u. pure-Keeps AuthError Single false))))

  unverified-Keeps :
      (user : User) (callback_url : Text) (v : Option ℕ)
      → Keeps Single (resend_unverified env user callback_url v)
  unfolding resend_unverified
  unverified-Keeps user callback_url none = resend_to-Keeps user callback_url
  unverified-Keeps user callback_url (some t) = pure-Keeps AuthError Single true

  resend_found-Keeps :
      (callback_url : Text) (found : Option User)
      → Keeps Single (resend_found env callback_url found)
  unfolding resend_found
  resend_found-Keeps callback_url none = pure-Keeps AuthError Single false
  resend_found-Keeps callback_url (some user) =
      unverified-Keeps user callback_url user.email_verified_at

  resend_verification-Keeps :
      (email callback_url : Text) → Keeps Single (resend_verification env email callback_url)
  unfolding resend_verification
  resend_verification-Keeps email callback_url =
      bind-Keeps Single _ _ (known_user-Keeps email) (resend_found-Keeps callback_url)

  me-Keeps : (authorization : Text) → Keeps Single (me env authorization)
  unfolding me
  me-Keeps authorization =
      bind-Keeps Single _ _ (caller_user-Keeps env Single authorization)
        (λ user. pure-Keeps AuthError Single (user_public user))

  require-Keeps : (e : AuthError) (b : Bool) → Keeps Single (require env e b)
  unfolding require
  require-Keeps e b =
      if-Keeps Single b _ _ (pure-Keeps AuthError Single tt) (raise-Keeps Single _ e)

  invalidate-Keeps :
      (user : Text) (at : ℕ) → Keeps Single (invalidate_active_password_reset_tokens user at)
  unfolding invalidate_active_password_reset_tokens invalidate
  invalidate-Keeps user at =
      statement-Keeps Single _ _ (consume-Single to_reset (is_open_of user) at)

  change_password-Keeps :
      (authorization current new : Text)
      → Keeps Single (change_password env authorization current new)
  unfolding change_password
  change_password-Keeps authorization current new =
      bind-Keeps Single _ _ (caller_user-Keeps env Single authorization) (λ (user : User).
        bind-Keeps Single _ _
          (require-Keeps invalid_credentials (env.matches user.password_hash current))
          (λ u. bind-Keeps Single _ _ (validate_password-Keeps Single new) (λ u.
            bind-Keeps Single _ _
              (require-Keeps same_password (not (env.matches user.password_hash new)))
              (λ u. bind-Keeps Single _ _ (hash_password-Keeps env Single new) (λ hash.
                bind-Keeps Single _ _ (now-Keeps AuthError Single) (λ t.
                  bind-Keeps Single _ _ (update_password_hash-Keeps env user.id hash)
                    (λ u. invalidate-Keeps user.id t)))))))

  reset_found-Keeps : (found : Option User) → Keeps Single (reset_found env found)
  unfolding reset_found latest_active_password_reset_created_at
  reset_found-Keeps none = pure-Keeps AuthError Single tt
  reset_found-Keeps (some user) = bind-Keeps Single _ _ (select-Keeps Single _ _) (λ latest.
      bind-Keeps Single _ _ (when-Keeps latest) (λ t.
        if-Keeps Single (cooling env t env.reset_resend_cooldown latest) _ _
          (raise-Keeps Single _ reset_cooldown) (send_password_reset_email-Keeps env user)))

  request_password_reset-Keeps : (email : Text) → Keeps Single (request_password_reset env email)
  unfolding request_password_reset
  request_password_reset-Keeps email =
      bind-Keeps Single _ _ (validate_email-Keeps env Single email)
        (λ u. bind-Keeps Single _ _ (known_user-Keeps email) (λ found. reset_found-Keeps found))

  reset_password-Keeps : (raw new : Text) → Keeps Single (reset_password env raw new)
  unfolding reset_password
  reset_password-Keeps raw new = bind-Keeps Single _ _ (validate_password-Keeps Single new) (λ u.
      bind-Keeps Single _ _ (token_hash-Keeps env Single raw) (λ hash.
        bind-Keeps Single _ _ (now-Keeps AuthError Single) (λ t.
          bind-Keeps Single _ _
            (catch-Keeps Single _ _ (consume_password_reset_token-Keeps env hash t)
              (λ e. raise-Keeps Single _ (consume_error e)))
            (λ (user : User).
              bind-Keeps Single _ _ (hash_password-Keeps env Single new) (λ password_hash.
                bind-Keeps Single _ _ (update_password_hash-Keeps env user.id password_hash) (λ u.
                  bind-Keeps Single _ _ (get_user_by_id-Keeps Single user.id)
                    (λ updated. issue_session-Keeps env Single updated)))))))

  run-Single : (call : Call) (db : Db Accounts) → Single db.tables → Single (run env call db).tables
  unfolding run Keeps
  run-Single (registers email password callback_url) = register-Keeps email password callback_url
  run-Single (logs_in email password) = login-Keeps email password
  run-Single (verifies raw) = verify_email-Keeps raw
  run-Single (resends email callback_url) = resend_verification-Keeps email callback_url
  run-Single (asks_me authorization) = me-Keeps authorization
  run-Single (changes authorization current new) = change_password-Keeps authorization current new
  run-Single (forgets email) = request_password_reset-Keeps email
  run-Single (resets_with raw new) = reset_password-Keeps raw new

  -- Over any sequence of calls of the service, whatever they return and whichever statements fail, a user has at most
  -- one open link to verify the address and at most one to reset the password, if that holds at first.
  pub run_all-Single :
      (calls : List Call) (db : Db Accounts)
      → Single db.tables
      → Single (run_all env calls db).tables
  unfolding run_all
  run_all-Single [] db h = h
  run_all-Single (c ∷ cs) db h = run_all-Single cs (run env c db) (run-Single c db h)
