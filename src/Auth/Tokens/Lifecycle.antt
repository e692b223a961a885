-- ===== src/Auth/Tokens/Lifecycle.antt =====
-- A token from its creation to its revocation (internal/module/auth/service: api_key_service.go,
-- publish_token_service.go).
use naralabs_atlas.Prelude.{
  ℕ, ◌≡◌, ◌≢◌, refl, ap, ◌∙◌, Bool, true, false, not, ◌&&◌, Option, none, some, List, [], ◌∷◌, Text,
  text_eq, text_eq_refl, subst, has_prefix, is_empty, trim_space, ==_iff, ok, Bool-cases, inl, inr,
  if◌then◌else◌, ◌==◌, arith,
}
use naralabs_atlas.Auth.Errors.{AuthError, unauthorized, row_not_found}
use naralabs_atlas.Database.{Db, pure, ◌>>=◌, ◌>>◌, catch, of_option, now}
use naralabs_atlas.Database.Keeps.{
  pure-Gives, after_ok, const-Keeps, catch-Gives, raise-Gives, if-Gives, Keeps, Gives, Ends,
  bind-Gives, Keeps-Gives, statement-Gives, now-Keeps,
}
use naralabs_atlas.Auth.Tokens.{
  Token, Table, Kind, is_none, find_active, resolve_active, touch_last_used, normalize_bearer,
}
use naralabs_atlas.Auth.Tokens.Service.{
  Env, hash_key, not_found_as, user_of, revoke, resolve_hash, resolve_auth,
}
use naralabs_atlas.Auth.Tokens.Stable.{System, Reach, user_of-Keeps, reach_lasting}
use naralabs_atlas.Auth.Tokens.Dead.{
  Numbered, is_live, Dead, Gone, Dead-Lasting, revoke_known-Gives,
}

module _ (user : Text) (id : ℕ) where
  found :
      (b : Bool) (x token : Token) (r : Option Token)
      → b ≡ true
      → (if b then some x else r) ≡ some token
      → x ≡ token
  found true x token r h e = cc
  found false x token r h e = cc

  skipped :
      (b : Bool) (x token : Token) (r : Option Token)
      → b ≡ false
      → (if b then some x else r) ≡ some token
      → r ≡ some token
  skipped true x token r h e = cc
  skipped false x token r h e = e

  not_live : (a b c d : Bool) → (a && (b && c)) ≡ false → a ≡ true → b ≡ true → (d && c) ≡ true → ⊥
  not_live true true true d h e f g = cc
  not_live true true false true h e f g = cc
  not_live true true false false h e f g = cc
  not_live true false c d h e f g = cc
  not_live false b c d h e f g = cc

  -- A key that resolves is a row that is not revoked.
  find_active-live :
      (hash : Text) (ts : List Token) (token : Token)
      → Gone user id ts
      → find_active hash ts ≡ some token
      → ¬ ((token.user_id ≡ user) × (token.id ≡ id))
  unfolding find_active Gone is_live
  find_active-live hash [] token g f (e, i) = cc
  find_active-live hash (t ∷ ts) token (h, hs) f (e, i) =
      elim (Bool-cases (text_eq t.token_hash hash && is_none t.revoked_at)) [
        | inl c ↦
            let same = found _ t token (find_active hash ts) c f in
            not_live (t.id == id) (text_eq t.user_id user) (is_none t.revoked_at)
              (text_eq t.token_hash hash) h
              (ground (arith, ==_iff t.id id, ap (λ (x : Token). x.id) same, i))
              (rw (ap (λ (x : Token). x.user_id) same ∙ e) (text_eq_refl user)) c
        | inr c ↦
            find_active-live hash ts token hs (skipped _ t token (find_active hash ts) c f) (e, i)
      ]

  -- Who a key stands for.
  Others : Text → ℕ → Type 0
  Others u i = ¬ ((u ≡ user) × (i ≡ id))

  found-Others :
      (hash : Text) (t : Table)
      → Dead user id t
      → (token : Token) → find_active hash t.rows ≡ some token
      → Others token.user_id token.id
  unfolding Others Dead Gone
  found-Others hash t h token = find_active-live hash t.rows token h.0

  of_option-Gives :
      (o : Option Token)
      → Gives {E = AuthError} {T = Table}
          (λ t. Unit {0})
          (λ t. (token : Token) → o ≡ some token → Others token.user_id token.id)
          (of_option row_not_found o)
          (λ token t. Others token.user_id token.id)
  unfolding Gives
  of_option-Gives none db h = tt
  of_option-Gives (some token) db h = h token refl

  resolve_active-Gives :
      (hash : Text)
      → Gives {E = AuthError}
          (λ t. Unit {0})
          (Dead user id)
          (resolve_active hash)
          (λ token t. Others token.user_id token.id)
  unfolding resolve_active
  resolve_active-Gives hash =
      let Q : Option Token → Table → Type 0 =
        λ o t. (token : Token) → o ≡ some token → Others token.user_id token.id in
      bind-Gives _ (Dead user id) Q (λ token t. Others token.user_id token.id) _ _
        (statement-Gives _ (Dead user id) Q _ _ (λ t h. tt) (found-Others hash))
        (λ o. of_option-Gives o)

  after_found :
      (key : Token)
      → Gives {E = AuthError}
          (λ t. Unit {0})
          {A = Text × ℕ}
          (λ t. Others key.user_id key.id)
          (do t ← now; catch (touch_last_used key.id t) (λ e. pure tt); pure (key.user_id, key.id))
          (λ who t. Others who.0 who.1)
  after_found key =
      let K : Table → Type 0 = λ t. Others key.user_id key.id in
      bind-Gives _ K (λ t. K) _ _ _ (Keeps-Gives _ K _ (λ t h. tt) (now-Keeps AuthError K))
        (λ t.
          bind-Gives _ K (λ u. K) _ _ _
            (Keeps-Gives _ K _ (λ t h. tt)
              (const-Keeps (Others key.user_id key.id)
                (catch (touch_last_used key.id t) (λ e. pure tt))))
            (λ u.
              pure-Gives AuthError (λ t. Unit {0}) (λ (who : Text × ℕ) t. Others who.0 who.1)
                (key.user_id, key.id)))

  resolve_hash-Gives :
      (env : Env) (kind : Kind) (hash : Option Text)
      → Gives {E = AuthError}
          (λ t. Unit {0})
          (Dead user id)
          (resolve_hash env kind hash)
          (λ who t. Others who.0 who.1)
  unfolding resolve_hash
  resolve_hash-Gives env kind none = raise-Gives _ (Dead user id) _ unauthorized (λ t h. tt)
  resolve_hash-Gives env kind (some hash) =
      bind-Gives _ (Dead user id) (λ (token : Token) t. Others token.user_id token.id) _ _ _
        (catch-Gives _ (Dead user id) _ _ _ (resolve_active-Gives hash)
          (λ e. raise-Gives _ _ _ (not_found_as env kind unauthorized e) (λ t h. h)))
        (λ key. after_found key)

  resolve_auth-Gives :
      (env : Env) (kind : Kind) (authorization : Text)
      → Gives {E = AuthError}
          (λ t. Unit {0})
          (Dead user id)
          (resolve_auth env kind authorization)
          (λ who t. Others who.0 who.1)
  unfolding resolve_auth
  resolve_auth-Gives env kind authorization =
      let raw = normalize_bearer authorization in
      let refuse = raise-Gives _ (Dead user id) _ unauthorized (λ t h. tt) in
      if-Gives _ (is_empty raw) (Dead user id) _ _ _ refuse (
        if-Gives _ (not (has_prefix raw kind.prefix)) (Dead user id) _ _ _ refuse
          (resolve_hash-Gives env kind (hash_key env.sha256_hex raw)))

  resolve_auth-others :
      (env : Env) (kind : Kind) (authorization : Text) (db db' : Db Table)
      → Dead user id db.tables
      → resolve_auth env kind authorization db ≢ (ok (user, id), db')
  unfolding Gives Others
  resolve_auth-others env kind authorization db db' h e =
      subst (Ends (λ t. Unit {0}) (λ who t. Others who.0 who.1)) e
        (resolve_auth-Gives env kind authorization db h) (refl, refl)

module _ (env : Env) (kind : Kind) (user : Text) (id : ℕ) (authorization key_id : Text) where
  revoke-Dead :
      (db db' : Db Table)
      → env.uuid_of (trim_space key_id) ≡ some id
      → (user_of env kind authorization db).0 ≡ ok user
      → Numbered db.tables
      → revoke env kind authorization key_id db ≡ (ok tt, db')
      → Dead user id db'.tables
  unfolding revoke Keeps Gives
  revoke-Dead db db' i u n e =
      let after_user = user_of-Keeps env kind Numbered authorization db n in
      subst (Ends (λ t. Unit {0}) (λ u t. Dead user id t))
        (after_ok (user_of env kind authorization db) _ user _ u e)
        (revoke_known-Gives user id env kind key_id i (user_of env kind authorization db).1
          after_user)

  -- Once Revoke has returned without an error, the revoked token stands for its user in no request any more, in every
  -- state that the service reaches from there, whichever statements fail.
  pub revoked_forever :
      (db db' : Db Table)
      → env.uuid_of (trim_space key_id) ≡ some id
      → (user_of env kind authorization db).0 ≡ ok user
      → Numbered db.tables
      → revoke env kind authorization key_id db ≡ (ok tt, db')
      → (k : ℕ) (pending : List Text) (s : System)
      → Reach env kind k (record { db = db'; pending = pending }) s
      → (bearer : Text) (last : Db Table)
      → resolve_auth env kind bearer s.db ≢ (ok (user, id), last)
  revoked_forever db db' i u n e k pending s reach bearer last =
      resolve_auth-others user id env kind bearer s.db last (
        reach_lasting env kind (Dead user id) (Dead-Lasting user id) k _ s reach
          (revoke-Dead db db' i u n e))
