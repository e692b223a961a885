-- ===== src/Auth/Accounts/Reset.antt =====
-- ResetPassword of internal/module/auth/service/auth_service.go: the password that it sets.
use naralabs_atlas.Prelude.{
  ℕ, ◌+◌, ◌≡◌, refl, Bool, true, false, Option, none, some, List, [], ◌∷◌, Text, text,
  text_eq_sound, All, Bool-cases, inl, inr, if◌then◌else◌, ◌==◌, ok, err, sym, subst, ◌≢◌, ◌∙◌,
}
use naralabs_atlas.Auth.Errors.{AuthError, user_not_found, other, invalid_credentials}
use naralabs_atlas.Auth.Users.{
  User, normalize_email, user_public, Accounts, first, by_email, by_id, update_rows, update_users,
  get_user_by_id, update_password_hash,
}
use naralabs_atlas.Auth.Links.{consume_password_reset_token}
use naralabs_atlas.Database.{Db, pure, raise, catch, of_option}
use naralabs_atlas.Database.Keeps.{
  of_option-Keeps, if-Keeps, random_text-Keeps, pure-Keeps, raise-Keeps, now-Keeps, Gives, Ends,
  bind-Gives, Keeps-Gives, statement-Gives, const-Keeps,
}
use naralabs_atlas.Auth.Accounts.{login, reset_password}
use naralabs_atlas.Auth.Sessions.{
  AuthEnv, claims, Session, issue_session, hash_password, consume_error,
}
use naralabs_atlas.Auth.Accounts.Parts.{validate_password-Keeps, token_hash-Keeps}
use naralabs_atlas.Auth.Accounts.Login.{login_accepts}

abbrev Any : Accounts → Type 0
Any t = Unit {0}

module _ {A : Type 0} where
  pure_as :
      (P : Accounts → Type 0) (Q : A → Accounts → Type 0) (a : A)
      → ((t : Accounts) → P t → Q a t)
      → Gives {E = AuthError} Any P (pure a) Q
  unfolding Gives
  pure_as P Q a w db h = w db.tables h

  option_as :
      (P : Accounts → Type 0) (Q : A → Accounts → Type 0) (e : AuthError) (o : Option A)
      → ((a : A) (t : Accounts) → P t → o ≡ some a → Q a t)
      → Gives Any P (of_option e o) Q
  unfolding Gives
  option_as P Q e none w db h = tt
  option_as P Q e (some a) w db h = w a db.tables h refl

-- bcrypt accepts a password with the hash that it made of it.
unfoldable pub Bcrypt : AuthEnv → Type 0
Bcrypt env =
    (salt password hash : Text)
    → env.bcrypt salt password ≡ some hash
    → env.matches hash password ≡ true

picked :
    {A : Type 0} (b : Bool) (y x : A) (r : Option A)
    → b ≡ true
    → (if b then some y else r) ≡ some x
    → y ≡ x
picked true y x r h e = cc
picked false y x r h e = cc

passed :
    {A : Type 0} (b : Bool) (y x : A) (r : Option A)
    → b ≡ false
    → (if b then some y else r) ≡ some x
    → r ≡ some x
passed true y x r h e = cc
passed false y x r h e = e

first_holds :
    {A : Type 0} (p : A → Bool) (P : A → Type 0) (xs : List A) (x : A)
    → All (λ y. p y ≡ true → P y) xs
    → first p xs ≡ some x
    → P x × (p x ≡ true)
unfolding first
first_holds p P [] x h e = absurd (cc e)
first_holds p P (y ∷ xs) x (h, hs) e = elim (Bool-cases (p y)) [
  | inl t ↦ subst (λ z. P z × (p z ≡ true)) (picked (p y) y x (first p xs) t e) (h t, t)
  | inr f ↦ first_holds p P xs x hs (passed (p y) y x (first p xs) f e)
]

module _ (env : AuthEnv) (law : Bcrypt env) (new : Text) where
  -- The password of every row of the user
  Replaced : Text → Accounts → Type 0
  Replaced id t =
      All (λ (u : User). by_id id u ≡ true → env.matches u.password_hash new ≡ true) t.users

  -- The user's row, and the password that it has
  HasPassword : User → Accounts → Type 0
  HasPassword user t =
      (first (by_id user.id) t.users ≡ some user) × (env.matches user.password_hash new ≡ true)

  hash_password-Gives :
      Gives Any Any (hash_password env new) (λ hash t. env.matches hash new ≡ true)
  unfolding hash_password Bcrypt
  hash_password-Gives =
      bind-Gives Any Any (λ salt. Any) (λ hash t. env.matches hash new ≡ true) _ _
        (Keeps-Gives Any Any _ (λ t h. h)
          (random_text-Keeps Any (λ e. other (text "hash password: ") e)))
        (λ salt.
          option_as Any (λ hash t. env.matches hash new ≡ true)
            (other (text "hash password: ") (text "password length exceeds 72 bytes"))
            (env.bcrypt salt new) (λ hash t h e. law salt new hash e))

  update_replaces :
      (id hash : Text) (at : ℕ) (us : List User)
      → env.matches hash new ≡ true
      → All
          (λ (u : User). by_id id u ≡ true → env.matches u.password_hash new ≡ true)
          (update_rows (by_id id) (λ u. record u { password_hash = hash; updated_at = at }) us).1
  unfolding update_rows
  update_replaces id hash at [] h = tt
  update_replaces id hash at (u ∷ us) h = elim (Bool-cases (by_id id u)) [
    | inl e ↦ rw e ((λ k. h), update_replaces id hash at us h)
    | inr e ↦ rw e ((λ k. absurd (cc (k, e))), update_replaces id hash at us h)
  ]

  update_password_hash-Gives :
      (id hash : Text)
      → Gives Any
          (λ t. env.matches hash new ≡ true)
          (update_password_hash id hash)
          (λ u t. Replaced id t)
  unfolding update_password_hash update_users Replaced
  update_password_hash-Gives id hash =
      bind-Gives Any (λ t. env.matches hash new ≡ true) (λ n. Replaced id) (λ u. Replaced id) _ _
        (statement-Gives Any _ (λ n. Replaced id) _ _ (λ t h. tt)
          (λ t h. update_replaces id hash t.time t.users h))
        (λ n.
          Keeps-Gives Any (Replaced id) _ (λ t h. tt)
            (if-Keeps (Replaced id) (n == 0) _ _ (raise-Keeps (Replaced id) _ user_not_found)
              (pure-Keeps AuthError (Replaced id) tt)))

  read_row :
      (id : Text) (t : Accounts)
      → Replaced id t
      → (u : User) → first (by_id id) t.users ≡ some u
      → HasPassword u t
  unfolding Replaced HasPassword
  read_row id t h u e =
      let (m, i) = first_holds (by_id id) _ t.users u h e in
      (subst (λ j. first (by_id j) t.users ≡ some u) (sym (text_eq_sound u.id id i)) e, m)

  get_user_by_id-Gives : (id : Text) → Gives Any (Replaced id) (get_user_by_id id) HasPassword
  unfolding get_user_by_id
  get_user_by_id-Gives id =
      let Q : Option User → Accounts → Type 0 = λ o t. (u : User) → o ≡ some u → HasPassword u t in
      bind-Gives Any (Replaced id) Q HasPassword _ _
        (statement-Gives Any (Replaced id) Q _ _ (λ t h. tt) (read_row id))
        (λ o.
          option_as (λ t. (u : User) → o ≡ some u → HasPassword u t) HasPassword user_not_found o
            (λ u t h e. h u e))

  -- What the session that ResetPassword returns says of the tables.
  Granted : Session → Accounts → Type 0
  Granted s t =
      (u : User) × (first (by_id s.user.id) t.users ≡ some u)
      × (env.matches u.password_hash new ≡ true)
      × (s.user ≡ user_public u)

  granted :
      (user : User) (signed : Text) (at : ℕ) (t : Accounts)
      → HasPassword user t
      → Granted (record { token = signed; expires_at = at; user = user_public user }) t
  unfolding HasPassword Granted user_public
  granted user signed at t (f, m) = (user, f, m, refl)

  issue_session-Gives :
      (user : User) → Gives Any (HasPassword user) (issue_session env user) Granted
  unfolding issue_session
  issue_session-Gives user =
      let P = HasPassword user in
      let keep_it = λ (t : Accounts) (h : P t). tt in
      bind-Gives Any P (λ t. P) Granted _ _ (Keeps-Gives Any P _ keep_it (now-Keeps AuthError P))
        (λ t.
          bind-Gives Any P (λ issued_at. P) Granted _ _
            (Keeps-Gives Any P _ keep_it (now-Keeps AuthError P))
            (λ issued_at.
              bind-Gives Any P (λ signed. P) Granted _ _
                (Keeps-Gives Any P _ keep_it (
                  of_option-Keeps P (other (text "sign jwt: ") [])
                    (env.sign env.jwt_secret (claims user (t + env.jwt_expiry) issued_at))))
                (λ signed.
                  pure_as P Granted
                    (record {
                      token = signed;
                      expires_at = t + env.jwt_expiry;
                      user = user_public user;
                    })
                    (granted user signed (t + env.jwt_expiry)))))

  reset_password-Gives : (raw : Text) → Gives Any Any (reset_password env raw new) Granted
  unfolding reset_password
  reset_password-Gives raw =
      let any = λ (t : Accounts) (h : Any t). h in
      bind-Gives Any Any (λ u. Any) Granted _ _
        (Keeps-Gives Any Any _ any (validate_password-Keeps Any new))
        (λ u.
          bind-Gives Any Any (λ hash. Any) Granted _ _
            (Keeps-Gives Any Any _ any (token_hash-Keeps env Any raw))
            (λ hash.
              bind-Gives Any Any (λ t. Any) Granted _ _
                (Keeps-Gives Any Any _ any (now-Keeps AuthError Any))
                (λ t.
                  bind-Gives Any Any (λ user. Any) Granted _ _
                    (Keeps-Gives Any Any _ any (
                      const-Keeps (Unit {0}) (
                        catch (consume_password_reset_token hash t)
                          (λ e. raise (consume_error e)))))
                    (λ (user : User).
                      bind-Gives Any Any (λ hash t. env.matches hash new ≡ true) Granted _ _
                        hash_password-Gives
                        (λ hash.
                          bind-Gives Any (λ t. env.matches hash new ≡ true) (λ u. Replaced user.id)
                            Granted _ _ (update_password_hash-Gives user.id hash)
                            (λ u.
                              bind-Gives Any (Replaced user.id) HasPassword Granted _ _
                                (get_user_by_id-Gives user.id) issue_session-Gives))))))

module _ (env : AuthEnv) where
  -- If ResetPassword returned a session, Login with the new password, at an address whose account is that of the
  -- session, never fails for the password, whichever statements fail; bcrypt is assumed to accept what it hashed.
  pub reset-login :
      Bcrypt env
      → (raw new : Text) (session : Session) (db db' : Db Accounts)
      → reset_password env raw new db ≡ (ok session, db')
      → (email : Text)
      → first (by_email (normalize_email email)) db'.tables.users
        ≡ first (by_id session.user.id) db'.tables.users
      → (login env email new db').0 ≢ err invalid_credentials
  unfolding Gives Granted
  reset-login law raw new session db db' e email same =
      let (user, found, m, p) =
        subst (Ends Any (Granted env law new)) e (reset_password-Gives env law new raw db tt) in
      login_accepts env email new user db' (same ∙ found) m
