-- ===== src/Auth/Sessions.antt =====
-- internal/module/auth/service/auth_service.go: the parameters of AuthService, and its passwords, links and sessions.
use naralabs_atlas.Prelude.{
  ℕ, ◌+◌, ◌/◌, ◌&&◌, ◌||◌, Bool, false, not, Option, none, some, List, [], ◌∷◌, ◌++◌, Text, text,
  has_prefix, contains, is_empty, to_lower, trim_space, trim_prefix, ltb, leb, ◌==◌, length,
  if◌then◌else◌,
}
use naralabs_atlas.Auth.Errors.{AuthError, invalid_token, token_expired, user_not_found, other}
use naralabs_atlas.Auth.Users.{
  User, Mail, verification_mail, reset_mail, Accounts, UserPublic, user_public,
}
use naralabs_atlas.Auth.Links.{
  invalidate_active_verification_tokens, invalidate_active_password_reset_tokens,
  create_verification_token, create_password_reset_token,
}
use naralabs_atlas.Database.{Query, pure, raise, ◌>>=◌, ◌>>◌, of_option, update, now, random_text}

-- The claims of a session
pub record Claims : Type 0 where
  pub sub : Text
  pub email : Text
  pub exp : ℕ
  pub iat : ℕ

-- The configuration of the service, and what it calls of other packages: gen_random_uuid(), the hexadecimal SHA-256,
-- bcrypt with the salt that it draws, net/mail, net/url (a URL with query parameters set), and jwt under a secret.
-- `none` is an error.
pub record AuthEnv : Type 0 where
  pub jwt_secret : Text
  pub jwt_expiry : ℕ
  pub verification_token_ttl : ℕ
  pub verification_resend_cooldown : ℕ
  pub reset_token_ttl : ℕ
  pub reset_resend_cooldown : ℕ
  pub web_app_url : Text
  pub uuid : ℕ → Text
  pub sha256_hex : Text → Text
  pub bcrypt : Text → Text → Option Text
  pub matches : Text → Text → Bool
  pub is_address : Text → Bool
  pub url_with : Text → List (Text × Text) → Option Text
  pub sign : Text → Claims → Option Text
  pub subject : Text → ℕ → Text → Option Text

abbrev pub claims : User → ℕ → ℕ → Claims
claims user expires_at issued_at = record {
  sub = user.id;
  email = user.email;
  exp = expires_at / 1000000000;
  iat = issued_at / 1000000000;
}

-- AuthSession
pub record Session : Type 0 where
  pub token : Text
  pub expires_at : ℕ
  pub user : UserPublic

-- hashToken
unfoldable pub hash_token : (Text → Text) → Text → Option Text
hash_token sha256_hex raw =
    if is_empty (trim_space raw) then none else some (sha256_hex (trim_space raw))

abbrev pub lowercase : ℕ → Bool
lowercase c = leb b'a' c && leb c b'z'

abbrev pub uppercase : ℕ → Bool
uppercase c = leb b'A' c && leb c b'Z'

abbrev pub digit : ℕ → Bool
digit c = leb b'0' c && leb c b'9'

-- The flags of validatePassword, after the characters that are left.
abbrev pub classes : Text → Bool → Bool → Bool → Bool
classes [] has_lower has_upper has_digit = has_lower && (has_upper && has_digit)
classes (c ∷ s) has_lower has_upper has_digit =
    classes s (has_lower || lowercase c) (has_upper || uppercase c) (has_digit || digit c)

-- validatePassword
unfoldable pub validate_password : Text → Query AuthError Accounts (Unit {0})
validate_password password =
    if ltb (length password) 8
    then raise (other (text "password must be at least 8 characters") [])
    else if classes password false false false
    then pure tt
    else raise (
        other
          (text
            "password must contain at least one number, one uppercase, and one lowercase letter")
          [])

-- strings.TrimRight(s, "/")
abbrev trim_slashes : Text → Text
trim_slashes [] = []
trim_slashes (c ∷ s) =
    let rest = trim_slashes s in if c == b'/' && is_empty rest then [] else c ∷ rest

-- sanitizeCallbackURL
pub sanitize_callback_url : Text → Text
sanitize_callback_url raw =
    let raw = trim_space raw in
    if is_empty raw || (not (has_prefix raw (text "/")) || has_prefix raw (text "//"))
    then []
    else raw

-- strings.Contains(strings.ToLower(err.Error()), "expired"), of an error that is not ErrUserNotFound.
abbrev is_expired : AuthError → Bool
is_expired (other message e) = contains (to_lower (message ++ e)) (text "expired")
is_expired error = false

-- The errors of the two Consume methods, as VerifyEmail and ResetPassword report them.
abbrev pub consume_error : AuthError → AuthError
consume_error user_not_found = invalid_token
consume_error (other message e) =
    if is_expired (other message e) then token_expired else other message e
consume_error error = error

-- errors.Is(err, repository.ErrUserNotFound)
abbrev pub missing_as : AuthError → AuthError → AuthError
missing_as e user_not_found = e
missing_as e error = error

module _ (env : AuthEnv) where
  -- validateEmail
  unfoldable pub validate_email : Text → Query AuthError Accounts (Unit {0})
  validate_email email =
      if is_empty (trim_space email)
      then raise (other (text "email is required") [])
      else if env.is_address (trim_space email)
      then pure tt
      else raise (other (text "invalid email") [])

  base_url : Text
  base_url =
      let base = trim_slashes (trim_space env.web_app_url) in
      if is_empty base then text "http://localhost:3000" else base

  -- buildResetURL
  unfoldable pub build_reset_url : Text → Query AuthError Accounts Text
  unfolding base_url
  build_reset_url raw =
      of_option (other (text "parse reset url: ") [])
        (env.url_with (base_url ++ text "/reset-password") ((text "token", raw) ∷ []))

  -- buildVerifyURL
  unfoldable pub build_verify_url : Text → Text → Query AuthError Accounts Text
  unfolding base_url sanitize_callback_url
  build_verify_url raw callback_url =
      let safe = sanitize_callback_url callback_url in
      of_option (other (text "parse verify url: ") []) (
        env.url_with (base_url ++ text "/api/auth/verify-email")
          ((text "token", raw) ∷ (if is_empty safe then [] else (text "callbackUrl", safe) ∷ [])))

  -- newPasswordResetToken and newVerificationToken, which differ in the time to live only
  unfoldable pub new_token : ℕ → Query AuthError Accounts (Text × Text × ℕ)
  unfolding hash_token
  new_token ttl = do
    raw ← random_text (λ e. other (text "generate token: ") e)
    hash ← of_option (other (text "empty token") []) (hash_token env.sha256_hex raw)
    t ← now
    pure (raw, hash, t + ttl)

  -- The mailer: a fault is an error of its own.
  unfoldable pub send : Mail → Query AuthError Accounts (Unit {0})
  send mail = update (λ e. other [] e) (λ t. record t { outbox = t.outbox ++ mail ∷ [] })

  -- sendPasswordResetEmail
  unfoldable pub send_password_reset_email : User → Query AuthError Accounts (Unit {0})
  unfolding new_token build_reset_url send
  send_password_reset_email user = do
    (raw, hash, expires_at) ← new_token env.reset_token_ttl
    t ← now
    invalidate_active_password_reset_tokens user.id t
    create_password_reset_token user.id hash expires_at
    url ← build_reset_url raw
    send (reset_mail user.email url)

  -- sendVerificationEmail
  unfoldable pub send_verification_email : User → Text → Query AuthError Accounts (Unit {0})
  unfolding new_token build_verify_url send
  send_verification_email user callback_url = do
    (raw, hash, expires_at) ← new_token env.verification_token_ttl
    t ← now
    invalidate_active_verification_tokens user.id t
    create_verification_token user.id hash expires_at
    url ← build_verify_url raw callback_url
    send (verification_mail user.email url)

  -- issueSession
  unfoldable pub issue_session : User → Query AuthError Accounts Session
  issue_session user = do
    t ← now
    let expires_at = t + env.jwt_expiry
    issued_at ← now
    signed ←
        of_option (other (text "sign jwt: ") [])
          (env.sign env.jwt_secret (claims user expires_at issued_at))
    pure (record { token = signed; expires_at = expires_at; user = user_public user })

  not_empty : Option Text → Option Text
  not_empty none = none
  not_empty (some sub) = if is_empty sub then none else some sub

  -- parseToken, at the time of jwt.Parse
  unfoldable pub parse_token : ℕ → Text → Option Text
  unfolding not_empty
  parse_token t raw =
      let raw = trim_prefix (trim_space raw) (text "Bearer ") in
      if is_empty raw then none else not_empty (env.subject env.jwt_secret t raw)

  -- bcrypt.GenerateFromPassword
  unfoldable pub hash_password : Text → Query AuthError Accounts Text
  hash_password password = do
    salt ← random_text (λ e. other (text "hash password: ") e)
    of_option (other (text "hash password: ") (text "password length exceeds 72 bytes"))
        (env.bcrypt salt password)
