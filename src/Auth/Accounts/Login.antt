-- ===== src/Auth/Accounts/Login.antt =====
-- Login of internal/module/auth/service/auth_service.go: what it answers to the password of the account.
use naralabs_atlas.Prelude.{
  ℕ, ◌+◌, ◌≡◌, refl, true, not, Option, none, some, [], Text, text, inl, inr, if◌then◌else◌, Result,
  ok, err, ap, sym, ◌≢◌, ◌⊎◌, ◌∙◌,
}
use naralabs_atlas.Auth.Errors.{AuthError, user_not_found, other, invalid_credentials}
use naralabs_atlas.Auth.Users.{
  User, normalize_email, user_public, Accounts, first, by_email, get_user_by_email,
}
use naralabs_atlas.Database.{Db, Query, after, handle, pure, raise, ◌>>=◌, of_option, select, now}
use naralabs_atlas.Database.Keeps.{after_at, after_err, handle_ok, handle_err, select_cases}
use naralabs_atlas.Auth.Accounts.{issue_verified, login}
use naralabs_atlas.Auth.Sessions.{AuthEnv, claims, Session, issue_session, missing_as}

-- An error that a method does not return
Avoids : {A : Type 0} → AuthError → Query AuthError Accounts A → Type 0
Avoids x m = (db : Db Accounts) → (m db).0 ≢ err x

module _ (x : AuthError) where
  after-Avoids :
      {A B : Type 0} (r : Result AuthError A × Db Accounts) (f : A → Query AuthError Accounts B)
      → r.0 ≢ err x
      → ((a : A) → r.0 ≡ ok a → Avoids x (f a))
      → (after r f).0 ≢ err x
  unfolding Avoids
  after-Avoids (ok a, db) f h k e = k a refl db e
  after-Avoids (err y, db) f h k e = h (cc e)

  bind-Avoids :
      {A B : Type 0} (m : Query AuthError Accounts A) (f : A → Query AuthError Accounts B)
      → Avoids x m
      → ((a : A) → Avoids x (f a))
      → Avoids x (m >>= f)
  unfolding Avoids
  bind-Avoids m f h k db = after-Avoids (m db) f (h db) (λ a e. k a)

  now-Avoids : Avoids x now
  unfolding Avoids
  now-Avoids db e = cc

  pure-Avoids : {A : Type 0} (a : A) → Avoids x (pure a)
  unfolding Avoids
  pure-Avoids a db e = cc

  option-Avoids : {A : Type 0} (y : AuthError) (o : Option A) → y ≢ x → Avoids x (of_option y o)
  unfolding Avoids
  option-Avoids y none n db e = n (cc e)
  option-Avoids y (some a) n db e = cc

other-known : (message e : Text) → other message e ≢ invalid_credentials
other-known message e h = cc

module _ (env : AuthEnv) where
  issue_session-Avoids : (user : User) → Avoids invalid_credentials (issue_session env user)
  unfolding issue_session
  issue_session-Avoids user =
      let x = invalid_credentials in
      bind-Avoids x _ _ (now-Avoids x) (λ t. bind-Avoids x _ _ (now-Avoids x) (λ issued_at.
        bind-Avoids x _ _
          (option-Avoids x (other (text "sign jwt: ") [])
            (env.sign env.jwt_secret (claims user (t + env.jwt_expiry) issued_at))
            (other-known (text "sign jwt: ") []))
          (λ signed.
            pure-Avoids x (record {
              token = signed;
              expires_at = t + env.jwt_expiry;
              user = user_public user;
            }))))

  issue_verified-Avoids :
      (user : User) (v : Option ℕ) → Avoids invalid_credentials (issue_verified env user v)
  unfolding issue_verified Avoids
  issue_verified-Avoids user none db e = cc
  issue_verified-Avoids user (some t) db e = issue_session-Avoids user db e

  found_row :
      (user : User) (o : Option User) (db : Db Accounts)
      → o ≡ some user
      → (of_option user_not_found o db).0 ≡ ok user
  found_row user o db h = rw h refl

  -- GetUserByEmail in Login, where the user exists
  get_user_by_email_cases :
      (email : Text) (user : User) (db : Db Accounts)
      → first (by_email (normalize_email email)) db.tables.users ≡ some user
      → ((get_user_by_email email db).0 ≡ ok user)
        ⊎ ((e : Text) × ((get_user_by_email email db).0
              ≡ err (other (text "get user by email: ") e)))
  unfolding get_user_by_email
  get_user_by_email_cases email user db h =
      let fail : Text → AuthError = λ e. other (text "get user by email: ") e in
      let query : Accounts → Option User = λ t. first (by_email (normalize_email email)) t.users in
      elim (select_cases fail query db) [
        | inl e ↦
            let e' =
              after_at (select fail query db) (λ found. of_option user_not_found found) _ e in
            inl (ap (λ r. r.0) e' ∙ found_row user (query db.tables) (select fail query db).1 h)
        | inr (x, e) ↦ inr (x, after_err _ _ (fail x) e)
      ]

  accepted :
      (user : User) (password : Text) (db : Db Accounts)
      → env.matches user.password_hash password ≡ true
      → ((if not (env.matches user.password_hash password)
            then raise invalid_credentials
            else issue_verified env user user.email_verified_at)
          db).0
        ≢ err invalid_credentials
  unfolding Avoids
  accepted user password db m = rw m (issue_verified-Avoids user user.email_verified_at db)

  -- Login with the password that the row has
  pub login_accepts :
      (email password : Text) (user : User) (db : Db Accounts)
      → first (by_email (normalize_email email)) db.tables.users ≡ some user
      → env.matches user.password_hash password ≡ true
      → (login env email password db).0 ≢ err invalid_credentials
  unfolding login
  login_accepts email password user db h m =
      let handler : AuthError → Query AuthError Accounts User =
        λ e. raise (missing_as invalid_credentials e) in
      let read = get_user_by_email email db in
      let got = handle read handler in
      let enter : User → Query AuthError Accounts Session = λ u.
        if not (env.matches u.password_hash password)
        then raise invalid_credentials
        else issue_verified env u u.email_verified_at in
      elim (get_user_by_email_cases email user db h) [
        | inl e ↦ λ bad.
            accepted user password got.1 m
              (sym (ap (λ r. r.0) (after_at got enter user (handle_ok read handler user e))) ∙ bad)
        | inr (y, e) ↦ λ bad.
            let failed = ap (λ r. r.0) (handle_err read handler _ e) in
            other-known (text "get user by email: ") y
              (cc (sym (after_err got enter _ failed) ∙ bad))
      ]
