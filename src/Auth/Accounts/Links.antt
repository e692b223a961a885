-- ===== src/Auth/Accounts/Links.antt =====
-- The parts of internal/module/auth/service/auth_service.go that insert and consume links.
use naralabs_atlas.Prelude.{ℕ, [], ◌∷◌, ◌++◌, Text, text, ltb, ◌==◌}
use naralabs_atlas.Auth.Errors.{AuthError, user_not_found, other}
use naralabs_atlas.Auth.Users.{
  User, Link, Mail, verification_mail, reset_mail, Accounts, Purpose, to_verify, to_reset,
  create_user, update_password_hash,
}
use naralabs_atlas.Auth.Links.{
  invalidate_active_password_reset_tokens, invalidate_active_verification_tokens,
  create_password_reset_token, create_verification_token, link_by_id, invalidate, insert_link,
  consume_link, open_link, verify_user, reset_user, consume_verification_token,
  consume_password_reset_token,
}
use naralabs_atlas.Database.{Query, ◌>>◌, update}
use naralabs_atlas.Database.Keeps.{
  Keeps, bind-Keeps, of_option-Keeps, if-Keeps, statement-Keeps, select-Keeps, transaction-Keeps,
  pure-Keeps, raise-Keeps, now-Keeps, bind-Gives, Keeps-Gives, statement-Gives, Gives-Keeps,
}
use naralabs_atlas.Auth.Sessions.{
  AuthEnv, build_reset_url, build_verify_url, send_password_reset_email, send_verification_email,
}
use naralabs_atlas.Auth.Accounts.Single.{
  Single, Ready, insert-Single, consume-Single, invalidate-Ready, insert_user-Single,
  update_users-Single,
}
use naralabs_atlas.Auth.Accounts.Parts.{new_token-Keeps, mail-Keeps}

module _ (env : AuthEnv) where
  send-Single :
      (mail : Mail) (t : Accounts) → Single t → Single (record t { outbox = t.outbox ++ mail ∷ [] })
  unfolding Single
  send-Single mail t h = h

  Ready-Single : (purpose : Purpose) (user : Text) (t : Accounts) → Ready purpose user t → Single t
  unfolding Ready
  Ready-Single purpose user t h = h.0

  -- Invalidate, insert, send
  replace-Keeps :
      (purpose : Purpose) (message other_message : Text) (user hash : Text) (at expires_at : ℕ)
      (rest : Query AuthError Accounts (Unit {0}))
      → Keeps Single rest
      → Keeps Single (
          invalidate purpose message user at
          >> (update (λ e. other other_message e) (insert_link purpose user hash expires_at)
              >> rest))
  unfolding invalidate
  replace-Keeps purpose message other_message user hash at expires_at rest k =
      Gives-Keeps Single (λ u. Single) _ (λ u t h. h)
        (bind-Gives Single Single (λ u. Ready purpose user) (λ u. Single) _ _
          (statement-Gives Single Single (λ u. Ready purpose user) _ _ (λ t h. h)
            (invalidate-Ready purpose user at))
          (λ u.
            bind-Gives Single (Ready purpose user) (λ u. Single) (λ u. Single) _ _
              (statement-Gives Single (Ready purpose user) (λ u. Single) _ _
                (Ready-Single purpose user) (insert-Single purpose user hash expires_at))
              (λ u. Keeps-Gives Single Single rest (λ t h. h) k)))

  pub send_password_reset_email-Keeps :
      (user : User) → Keeps Single (send_password_reset_email env user)
  unfolding send_password_reset_email invalidate_active_password_reset_tokens
      create_password_reset_token build_reset_url
  send_password_reset_email-Keeps user =
      bind-Keeps Single _ _ (new_token-Keeps env Single env.reset_token_ttl) (λ token.
        bind-Keeps Single _ _ (now-Keeps AuthError Single) (λ t.
          replace-Keeps to_reset (text "invalidate password reset tokens: ")
            (text "create password reset token: ") user.id token.1 t token.2 _
            (mail-Keeps env Single (build_reset_url env token.0) (λ url. reset_mail user.email url)
              (of_option-Keeps Single _ _) send-Single)))

  pub send_verification_email-Keeps :
      (user : User) (callback_url : Text)
      → Keeps Single (send_verification_email env user callback_url)
  unfolding send_verification_email invalidate_active_verification_tokens create_verification_token
      build_verify_url
  send_verification_email-Keeps user callback_url =
      bind-Keeps Single _ _ (new_token-Keeps env Single env.verification_token_ttl) (λ token.
        bind-Keeps Single _ _ (now-Keeps AuthError Single) (λ t.
          replace-Keeps to_verify (text "invalidate verification tokens: ")
            (text "create verification token: ") user.id token.1 t token.2 _
            (mail-Keeps env Single (build_verify_url env token.0 callback_url)
              (λ url. verification_mail user.email url) (of_option-Keeps Single _ _) send-Single)))

  -- The transactions
  consume-Keeps :
      (purpose : Purpose) (message : Text) (id at : ℕ)
      → Keeps Single (consume_link purpose message id at)
  unfolding consume_link
  consume-Keeps purpose message id at =
      statement-Keeps Single _ _ (consume-Single purpose (link_by_id id) at)

  open_link-Keeps :
      (purpose : Purpose) (message hash : Text) (at : ℕ)
      → Keeps Single (open_link purpose message hash at)
  unfolding open_link
  open_link-Keeps purpose message hash at =
      bind-Keeps Single _ _ (select-Keeps Single _ _) (λ found.
        bind-Keeps Single _ _ (of_option-Keeps Single user_not_found found) (λ (link : Link).
          if-Keeps Single (ltb link.expires_at at) _ _ (raise-Keeps Single _ _)
            (pure-Keeps AuthError Single link)))

  verify_user-Keeps : (id : Text) (at : ℕ) → Keeps Single (verify_user id at)
  unfolding verify_user
  verify_user-Keeps id at =
      bind-Keeps Single _ _ (statement-Keeps Single _ _ (λ t h. update_users-Single _ _ t h))
        (λ found. of_option-Keeps Single _ found)

  reset_user-Keeps : (id : Text) → Keeps Single (reset_user id)
  unfolding reset_user
  reset_user-Keeps id =
      bind-Keeps Single _ _ (select-Keeps Single _ _) (λ found. of_option-Keeps Single _ found)

  pub consume_verification_token-Keeps :
      (hash : Text) (at : ℕ) → Keeps Single (consume_verification_token hash at)
  unfolding consume_verification_token
  consume_verification_token-Keeps hash at = transaction-Keeps Single _ _ _ (
      bind-Keeps Single _ _ (open_link-Keeps to_verify (text "select verification token: ") hash at)
        (λ link.
          bind-Keeps Single _ _
            (consume-Keeps to_verify (text "consume verification token: ") link.id at)
            (λ u. verify_user-Keeps link.user_id at)))

  pub consume_password_reset_token-Keeps :
      (hash : Text) (at : ℕ) → Keeps Single (consume_password_reset_token hash at)
  unfolding consume_password_reset_token
  consume_password_reset_token-Keeps hash at = transaction-Keeps Single _ _ _ (
      bind-Keeps Single _ _
        (open_link-Keeps to_reset (text "select password reset token: ") hash at)
        (λ link.
          bind-Keeps Single _ _
            (consume-Keeps to_reset (text "consume password reset token: ") link.id at)
            (λ u. reset_user-Keeps link.user_id)))

  pub update_password_hash-Keeps : (id hash : Text) → Keeps Single (update_password_hash id hash)
  unfolding update_password_hash
  update_password_hash-Keeps id hash =
      bind-Keeps Single _ _ (statement-Keeps Single _ _ (λ t h. update_users-Single _ _ t h)) (λ n.
        if-Keeps Single (n == 0) _ _ (raise-Keeps Single _ user_not_found)
          (pure-Keeps AuthError Single tt))

  pub create_user-Keeps : (email hash : Text) → Keeps Single (create_user env.uuid email hash)
  unfolding create_user
  create_user-Keeps email hash =
      bind-Keeps Single _ _
        (statement-Keeps Single _ _ (λ t h. insert_user-Single env.uuid _ hash t h))
        (λ o. of_option-Keeps Single _ o)
