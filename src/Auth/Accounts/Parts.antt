-- ===== src/Auth/Accounts/Parts.antt =====
-- Parts of internal/module/auth/service/auth_service.go that change no table.
use naralabs_atlas.Prelude.{ℕ, ◌+◌, [], ◌∷◌, ◌++◌, Text, text}
use naralabs_atlas.Auth.Errors.{AuthError, invalid_token, unauthorized, user_not_found, other}
use naralabs_atlas.Auth.Users.{User, user_public, Mail, Accounts, get_user_by_email, get_user_by_id}
use naralabs_atlas.Database.{Query, ◌>>=◌}
use naralabs_atlas.Database.Keeps.{
  Keeps, bind-Keeps, catch-Keeps, of_option-Keeps, if-Keeps, statement-Keeps, select-Keeps,
  random_text-Keeps, pure-Keeps, raise-Keeps, now-Keeps,
}
use naralabs_atlas.Auth.Accounts.{token_hash, caller, caller_user}
use naralabs_atlas.Auth.Sessions.{
  AuthEnv, claims, new_token, send, issue_session, validate_email, validate_password, hash_password,
  missing_as, hash_token, parse_token,
}

-- The parts that no table changes in
module _ (P : Accounts → Type 0) where
  pub get_user_by_email-Keeps : (email : Text) → Keeps P (get_user_by_email email)
  unfolding get_user_by_email
  get_user_by_email-Keeps email =
      bind-Keeps P _ _ (select-Keeps P _ _) (λ o. of_option-Keeps P user_not_found o)

  pub get_user_by_id-Keeps : (id : Text) → Keeps P (get_user_by_id id)
  unfolding get_user_by_id
  get_user_by_id-Keeps id =
      bind-Keeps P _ _ (select-Keeps P _ _) (λ o. of_option-Keeps P user_not_found o)

  pub validate_password-Keeps : (password : Text) → Keeps P (validate_password password)
  unfolding validate_password
  validate_password-Keeps password =
      if-Keeps P _ _ _ (raise-Keeps P _ _)
        (if-Keeps P _ _ _ (pure-Keeps AuthError P tt) (raise-Keeps P _ _))

module _ (env : AuthEnv) (P : Accounts → Type 0) where
  pub validate_email-Keeps : (email : Text) → Keeps P (validate_email env email)
  unfolding validate_email
  validate_email-Keeps email =
      if-Keeps P _ _ _ (raise-Keeps P _ _)
        (if-Keeps P _ _ _ (pure-Keeps AuthError P tt) (raise-Keeps P _ _))

  pub new_token-Keeps : (ttl : ℕ) → Keeps P (new_token env ttl)
  unfolding new_token
  new_token-Keeps ttl =
      bind-Keeps P _ _ (random_text-Keeps P (λ e. other (text "generate token: ") e)) (λ raw.
        bind-Keeps P _ _
          (of_option-Keeps P (other (text "empty token") []) (hash_token env.sha256_hex raw))
          (λ hash.
            bind-Keeps P _ _ (now-Keeps AuthError P)
              (λ t. pure-Keeps AuthError P (raw, hash, t + ttl))))

  pub issue_session-Keeps : (user : User) → Keeps P (issue_session env user)
  unfolding issue_session
  issue_session-Keeps user = bind-Keeps P _ _ (now-Keeps AuthError P) (λ t.
      bind-Keeps P _ _ (now-Keeps AuthError P) (λ issued_at.
        bind-Keeps P _ _
          (of_option-Keeps P (other (text "sign jwt: ") [])
            (env.sign env.jwt_secret (claims user (t + env.jwt_expiry) issued_at)))
          (λ signed.
            pure-Keeps AuthError P (record {
              token = signed;
              expires_at = t + env.jwt_expiry;
              user = user_public user;
            }))))

  pub hash_password-Keeps : (password : Text) → Keeps P (hash_password env password)
  unfolding hash_password
  hash_password-Keeps password =
      bind-Keeps P _ _ (random_text-Keeps P (λ e. other (text "hash password: ") e)) (λ salt.
        of_option-Keeps P (other (text "hash password: ") (text "password length exceeds 72 bytes"))
          (env.bcrypt salt password))

  pub token_hash-Keeps : (raw : Text) → Keeps P (token_hash env raw)
  unfolding token_hash
  token_hash-Keeps raw = of_option-Keeps P invalid_token (hash_token env.sha256_hex raw)

  pub caller_user-Keeps : (authorization : Text) → Keeps P (caller_user env authorization)
  unfolding caller_user caller
  caller_user-Keeps authorization =
      bind-Keeps P _ _
        (bind-Keeps P _ _ (now-Keeps AuthError P)
          (λ t. of_option-Keeps P unauthorized (parse_token env t authorization)))
        (λ id.
          catch-Keeps P _ _ (get_user_by_id-Keeps P id)
            (λ e. raise-Keeps P _ (missing_as unauthorized e)))

  -- The part behind the UPDATE and the INSERT of a link
  pub mail-Keeps :
      (m : Query AuthError Accounts Text) (f : Text → Mail)
      → Keeps P m
      → ((mail : Mail) (t : Accounts) → P t → P (record t { outbox = t.outbox ++ mail ∷ [] }))
      → Keeps P (m >>= λ url. send env (f url))
  unfolding send
  mail-Keeps m f k sent =
      bind-Keeps P m _ k (λ url. statement-Keeps P _ _ (λ t h. sent (f url) t h))
