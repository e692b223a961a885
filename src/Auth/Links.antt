-- ===== src/Auth/Links.antt =====
-- internal/module/auth/repository/auth_repository.go: the links that are mailed, in email_verification_tokens and
-- password_reset_tokens, and the transactions that consume them.
use naralabs_atlas.Prelude.{
  ℕ, ◌+◌, ◌&&◌, Bool, Option, none, some, List, [], ◌∷◌, ◌++◌, Text, text, text_eq, ltb, ◌==◌,
  if◌then◌else◌,
}
use naralabs_atlas.Auth.Errors.{AuthError, user_not_found, other}
use naralabs_atlas.Auth.Tokens.{is_none}
use naralabs_atlas.Database.{
  Query, pure, raise, ◌>>=◌, ◌>>◌, of_option, statement, select, update, transaction,
}
use naralabs_atlas.Auth.Users.{
  User, Link, Accounts, Purpose, links, set_links, wrap, first, by_id, update_rows, update_users,
  coalesce, to_verify, to_reset,
}

-- user_id = $1 AND consumed_at IS NULL
abbrev pub is_open_of : Text → Link → Bool
is_open_of user l = text_eq l.user_id user && is_none l.consumed_at

unfoldable pub consume_links : (Link → Bool) → ℕ → List Link → List Link
unfolding update_rows
consume_links p at ls = (update_rows p (λ l. record l { consumed_at = some at }) ls).1

unfoldable pub invalidate : Purpose → Text → Text → ℕ → Query AuthError Accounts (Unit {0})
unfolding consume_links
invalidate purpose message user now =
    update (wrap message)
      (λ t. set_links purpose (consume_links (is_open_of user) now (links purpose t)) t)

-- InvalidateActiveVerificationTokens
unfoldable pub invalidate_active_verification_tokens :
    Text → ℕ → Query AuthError Accounts (Unit {0})
unfolding invalidate
invalidate_active_verification_tokens =
    invalidate to_verify (text "invalidate verification tokens: ")

-- InvalidateActivePasswordResetTokens
unfoldable pub invalidate_active_password_reset_tokens :
    Text → ℕ → Query AuthError Accounts (Unit {0})
unfolding invalidate
invalidate_active_password_reset_tokens =
    invalidate to_reset (text "invalidate password reset tokens: ")

unfoldable pub insert_link : Purpose → Text → Text → ℕ → Accounts → Accounts
insert_link purpose user hash expires_at t =
    let link : Link = record {
      id = t.issued;
      user_id = user;
      token_hash = hash;
      expires_at = expires_at;
      consumed_at = none;
      created_at = t.time;
    } in
    record (set_links purpose (links purpose t ++ link ∷ []) t) { issued = t.issued + 1 }

-- CreateVerificationToken
unfoldable pub create_verification_token : Text → Text → ℕ → Query AuthError Accounts (Unit {0})
unfolding insert_link
create_verification_token user hash expires_at =
    update (wrap (text "create verification token: ")) (insert_link to_verify user hash expires_at)

-- CreatePasswordResetToken
unfoldable pub create_password_reset_token : Text → Text → ℕ → Query AuthError Accounts (Unit {0})
unfolding insert_link
create_password_reset_token user hash expires_at =
    update (wrap (text "create password reset token: ")) (insert_link to_reset user hash expires_at)

later : ℕ → Option ℕ → ℕ
later at none = at
later at (some t) = if ltb at t then t else at

-- ORDER BY created_at DESC LIMIT 1
unfoldable pub latest_open : Text → List Link → Option ℕ
unfolding later
latest_open user [] = none
latest_open user (l ∷ ls) =
    let rest = latest_open user ls in
    if is_open_of user l then some (later l.created_at rest) else rest

-- LatestActiveVerificationCreatedAt
unfoldable pub latest_active_verification_created_at : Text → Query AuthError Accounts (Option ℕ)
unfolding latest_open
latest_active_verification_created_at user =
    select (wrap (text "latest verification token: ")) (λ t. latest_open user t.verifications)

-- LatestActivePasswordResetCreatedAt
unfoldable pub latest_active_password_reset_created_at : Text → Query AuthError Accounts (Option ℕ)
unfolding latest_open
latest_active_password_reset_created_at user =
    select (wrap (text "latest password reset token: ")) (λ t. latest_open user t.resets)

-- t.token_hash = $1 AND t.consumed_at IS NULL
abbrev pub is_open_with : Text → Link → Bool
is_open_with hash l = text_eq l.token_hash hash && is_none l.consumed_at

abbrev pub link_by_id : ℕ → Link → Bool
link_by_id id l = l.id == id

-- The first part of both transactions: the row with the hash, in time.
unfoldable pub open_link : Purpose → Text → Text → ℕ → Query AuthError Accounts Link
unfolding first
open_link purpose message hash now = do
  found ← select (wrap message) (λ t. first (is_open_with hash) (links purpose t))
  link ← of_option user_not_found found
  if ltb link.expires_at now then raise (other (text "token expired") []) else pure link

unfoldable pub consume_link : Purpose → Text → ℕ → ℕ → Query AuthError Accounts (Unit {0})
unfolding consume_links
consume_link purpose message id now =
    update (wrap message)
      (λ t. set_links purpose (consume_links (link_by_id id) now (links purpose t)) t)

-- The UPDATE of users and its row
unfoldable pub verify_user : Text → ℕ → Query AuthError Accounts User
unfolding update_users coalesce first
verify_user id now = do
  found ← statement (wrap (text "verify user email: ")) (λ t.
      let t' =
        (update_users (by_id id)
          (λ u. record u { email_verified_at = coalesce u.email_verified_at now; updated_at = now })
          t).1 in
      (first (by_id id) t'.users, t'))
  of_option (wrap (text "verify user email: ") (text "no rows in result set")) found

-- ConsumeVerificationToken
unfoldable pub consume_verification_token : Text → ℕ → Query AuthError Accounts User
unfolding open_link consume_link verify_user
consume_verification_token hash now =
    transaction (wrap (text "begin tx: ")) (wrap (text "commit tx: ")) (do
      link ← open_link to_verify (text "select verification token: ") hash now
      consume_link to_verify (text "consume verification token: ") link.id now
      verify_user link.user_id now)

-- The SELECT of the user
unfoldable pub reset_user : Text → Query AuthError Accounts User
unfolding first
reset_user id = do
  found ← select (wrap (text "get user for password reset: ")) (λ t. first (by_id id) t.users)
  of_option (wrap (text "get user for password reset: ") (text "no rows in result set")) found

-- ConsumePasswordResetToken
unfoldable pub consume_password_reset_token : Text → ℕ → Query AuthError Accounts User
unfolding open_link consume_link reset_user
consume_password_reset_token hash now =
    transaction (wrap (text "begin tx: ")) (wrap (text "commit tx: ")) (do
      link ← open_link to_reset (text "select password reset token: ") hash now
      consume_link to_reset (text "consume password reset token: ") link.id now
      reset_user link.user_id)
