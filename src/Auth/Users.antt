-- ===== src/Auth/Users.antt =====
-- internal/module/auth: model/user.go and repository/auth_repository.go. The methods on email_verification_tokens and
-- on password_reset_tokens differ in their table and their messages only: here `Purpose`.
use naralabs_atlas.Prelude.{
  ℕ, ◌+◌, Bool, true, false, Option, none, some, List, [], ◌∷◌, ◌++◌, Text, text, text_eq, to_lower,
  trim_space, ◌==◌, if◌then◌else◌,
}
use naralabs_atlas.Auth.Errors.{AuthError, user_not_found, other}
use naralabs_atlas.Auth.Tokens.{is_none}
use naralabs_atlas.Database.{Query, pure, raise, ◌>>=◌, of_option, statement, select}

-- User
pub record User : Type 0 where
  pub id : Text
  pub email : Text
  pub password_hash : Text
  pub email_verified_at : Option ℕ
  pub created_at : ℕ
  pub updated_at : ℕ

-- A row of email_verification_tokens or of password_reset_tokens
pub record Link : Type 0 where
  pub id : ℕ
  pub user_id : Text
  pub token_hash : Text
  pub expires_at : ℕ
  pub consumed_at : Option ℕ
  pub created_at : ℕ

-- What the service hands to the mailer, without the time to live and the name of the product.
pub data Mail : Type 0 where
  verification_mail : (to url : Text) → Mail
  reset_mail : (to url : Text) → Mail

-- The tables in the order of insertion, and the mails that were sent. `issued` counts the ids that the server has
-- given, and `time` is its clock behind NOW().
pub record Accounts : Type 0 where
  pub users : List User
  pub verifications : List Link
  pub resets : List Link
  pub outbox : List Mail
  pub issued : ℕ
  pub time : ℕ

pub data Purpose : Type 0 where
  to_verify to_reset : Purpose

abbrev pub links : Purpose → Accounts → List Link
links to_verify t = t.verifications
links to_reset t = t.resets

abbrev pub set_links : Purpose → List Link → Accounts → Accounts
set_links to_verify rows t = record t { verifications = rows }
set_links to_reset rows t = record t { resets = rows }

-- UserPublic
pub record UserPublic : Type 0 where
  pub id : Text
  pub email : Text
  pub email_verified : Bool
  pub verified_at : Option ℕ

is_some : {A : Type 0} → Option A → Bool
is_some none = false
is_some (some a) = true

-- User.Public
unfoldable pub user_public : User → UserPublic
unfolding is_some
user_public u = record {
  id = u.id;
  email = u.email;
  email_verified = is_some u.email_verified_at;
  verified_at = u.email_verified_at;
}

-- normalizeEmail
unfoldable pub normalize_email : Text → Text
normalize_email email = to_lower (trim_space email)

abbrev pub wrap : Text → Text → AuthError
wrap message e = other message e

-- The first row that a test accepts.
unfoldable pub first : {A : Type 0} → (A → Bool) → List A → Option A
first p [] = none
first p (x ∷ xs) = if p x then some x else first p xs

abbrev pub by_email : Text → User → Bool
by_email email u = text_eq u.email email

abbrev pub by_id : Text → User → Bool
by_id id u = text_eq u.id id

-- users.email has the constraint UNIQUE.
unfoldable pub insert_user : (ℕ → Text) → Text → Text → Accounts → Option User × Accounts
unfolding first
insert_user uuid email hash t =
    let user : User = record {
      id = uuid t.issued;
      email = email;
      password_hash = hash;
      email_verified_at = none;
      created_at = t.time;
      updated_at = t.time;
    } in
    if is_none (first (by_email email) t.users)
    then (some user, record t { users = t.users ++ user ∷ []; issued = t.issued + 1 })
    else (none, t)

-- CreateUser; the driver's error for a breach of the constraint is its SQLSTATE.
unfoldable pub create_user : (ℕ → Text) → Text → Text → Query AuthError Accounts User
unfolding insert_user normalize_email
create_user uuid email hash = do
  inserted ← statement (wrap (text "create user: ")) (insert_user uuid (normalize_email email) hash)
  of_option (wrap (text "create user: ") (text "23505")) inserted

-- GetUserByEmail
unfoldable pub get_user_by_email : Text → Query AuthError Accounts User
unfolding first normalize_email
get_user_by_email email = do
  found ←
      select (wrap (text "get user by email: "))
        (λ t. first (by_email (normalize_email email)) t.users)
  of_option user_not_found found

-- GetUserByID
unfoldable pub get_user_by_id : Text → Query AuthError Accounts User
unfolding first
get_user_by_id id = do
  found ← select (wrap (text "get user by id: ")) (λ t. first (by_id id) t.users)
  of_option user_not_found found

-- The rows of an UPDATE, and the number of those that it changed.
unfoldable pub update_rows : {A : Type 0} → (A → Bool) → (A → A) → List A → ℕ × List A
update_rows p f [] = (0, [])
update_rows p f (x ∷ xs) =
    let (n, ys) = update_rows p f xs in if p x then (n + 1, f x ∷ ys) else (n, x ∷ ys)

unfoldable pub update_users : (User → Bool) → (User → User) → Accounts → ℕ × Accounts
unfolding update_rows
update_users p f t = let (n, users) = update_rows p f t.users in (n, record t { users = users })

unfoldable pub coalesce : Option ℕ → ℕ → Option ℕ
coalesce none at = some at
coalesce (some t) at = some t

-- MarkEmailVerified
pub mark_email_verified : Text → Query AuthError Accounts (Unit {0})
unfolding update_users coalesce
mark_email_verified id = do
  n ← statement (wrap (text "mark email verified: ")) (λ t.
      update_users (by_id id)
        (λ u. record u {
          email_verified_at = coalesce u.email_verified_at t.time;
          updated_at = t.time;
        })
        t)
  if n == 0 then raise user_not_found else pure tt

-- UpdatePasswordHash
unfoldable pub update_password_hash : Text → Text → Query AuthError Accounts (Unit {0})
unfolding update_users
update_password_hash id hash = do
  n ←
      statement (wrap (text "update password hash: ")) (λ t.
        update_users (by_id id) (λ u. record u { password_hash = hash; updated_at = t.time }) t)
  if n == 0 then raise user_not_found else pure tt
