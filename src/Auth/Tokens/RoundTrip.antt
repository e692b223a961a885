-- ===== src/Auth/Tokens/RoundTrip.antt =====
-- A key from Create to ResolveAPIKeyAuth (internal/module/auth/service: api_key_service.go, publish_token_service.go).
use naralabs_atlas.Prelude.{
  ℕ, ◌≡◌, ◌⊎◌, inl, inr, refl, sym, ap, subst, ◌∙◌, ◌+◌, Bool, true, false, ◌&&◌, ◌||◌, Option,
  none, some, List, [], ◌∷◌, ◌++◌, Text, text, text_eq, text_eq_refl, trim_space, has_prefix,
  is_empty, Result, ok, err, length, take, Bool-cases, if◌then◌else◌, arith,
}
use naralabs_atlas.Auth.Errors.{AuthError, unauthorized, row_not_found, other}
use naralabs_atlas.Database.{
  Db, Query, after, handle, pure, raise, ◌>>=◌, ◌>>◌, catch, of_option, select, now,
}
use naralabs_atlas.Database.Keeps.{
  Gives, Ends, bind-Gives, Keeps-Gives, statement-Gives, random_text-Keeps, after_at, after_err,
  handle_ok, handle_err, select_cases,
}
use naralabs_atlas.Auth.Tokens.{
  Token, Table, Kind, is_none, has_hash, new_token, insert_row, insert, find_active, resolve_active,
  touch_last_used, normalize_bearer,
}
use naralabs_atlas.Auth.Tokens.Service.{
  Env, Created, hash_key, new_key, issue, label_or_default, ellipsis, not_found_as, resolve_hash,
  resolve_auth,
}

abbrev Any : Table → Type 0
Any t = Unit {0}

module _ {A : Type 0} where
  pure_as :
      (P : Table → Type 0) (Q : A → Table → Type 0) (a : A)
      → ((t : Table) → P t → Q a t)
      → Gives {E = AuthError} Any P (pure a) Q
  unfolding Gives
  pure_as P Q a w db h = w db.tables h

  option_as :
      (P : Table → Type 0) (Q : A → Table → Type 0) (e : AuthError) (o : Option A)
      → ((a : A) (t : Table) → P t → o ≡ some a → Q a t)
      → Gives Any P (of_option e o) Q
  unfolding Gives
  option_as P Q e none w db h = tt
  option_as P Q e (some a) w db h = w a db.tables h refl

with_fact :
    {A : Type 0} (X : Type 0) (Q : A → Table → Type 0) (m : Query AuthError Table A)
    → (X → Gives Any Any m Q)
    → Gives Any (λ t. X) m Q
unfolding Gives
with_fact X Q m k db x = k x db tt

or_left : (b c : Bool) → (b || c) ≡ false → b ≡ false
or_left false c h = refl
or_left true c h = cc

or_right : (b c : Bool) → (b || c) ≡ false → c ≡ false
or_right false c h = h
or_right true c h = cc

-- A row with a hash that no row had is the one that is found.
find_active-append :
    (hash : Text) (ts : List Token) (t : Token)
    → has_hash hash ts ≡ false
    → (text_eq t.token_hash hash && is_none t.revoked_at) ≡ true
    → find_active hash (ts ++ t ∷ []) ≡ some t
unfolding find_active has_hash
find_active-append hash [] t h e = rw e refl
find_active-append hash (s ∷ ts) t h e =
    rw (or_left (text_eq s.token_hash hash) (has_hash hash ts) h)
      (find_active-append hash ts t (or_right (text_eq s.token_hash hash) (has_hash hash ts) h) e)

has_prefix-append : (p s : Text) → has_prefix (p ++ s) p ≡ true
has_prefix-append [] s = refl
has_prefix-append (c ∷ p) s = ground (arith, has_prefix-append p s)

no_row :
    (b : Bool) (x : Token) (t t' : Table) (token : Token)
    → b ≡ true
    → (if◌then◌else◌ {A = Option Token × Table} b (none, t) (some x, t')).0 ≡ some token
    → ⊥
no_row true x t t' token e h = cc
no_row false x t t' token e h = cc

the_row :
    (b : Bool) (x : Token) (t t' : Table) (token : Token)
    → b ≡ false
    → (if◌then◌else◌ {A = Option Token × Table} b (none, t) (some x, t')).0 ≡ some token
    → x ≡ token
the_row true x t t' token e h = cc
the_row false x t t' token e h = cc

module _ (env : Env) (kind : Kind) (user : Text) where
  Found : Text → Token → Table → Type 0
  Found hash token t = (find_active hash t.rows ≡ some token) × (token.user_id ≡ user)

  -- What Create promises of its key
  Valid : Created → Table → Type 0
  Valid c t =
      (token : Token) × (hash : Text) × (hash_key env.sha256_hex c.key ≡ some hash)
      × (find_active hash t.rows ≡ some token)
      × (token.user_id ≡ user)
      × (token.id ≡ c.id)
      × (has_prefix c.key kind.prefix ≡ true)

  inserted :
      (hash prefix label : Text) (t : Table) (token : Token)
      → (insert_row user hash prefix label t).0 ≡ some token
      → Found hash token (insert_row user hash prefix label t).1
  unfolding insert_row Found new_token
  inserted hash prefix label t token h = elim (Bool-cases (has_hash hash t.rows)) [
    | inl e ↦ absurd (no_row _ _ t _ token e h)
    | inr e ↦
        let row = new_token user hash prefix label t in
        let same =
          the_row _ row t (record t { rows = t.rows ++ row ∷ []; issued = t.issued + 1 }) token e
            h in
        rw e (
          find_active-append hash t.rows row e (rw (text_eq_refl hash) refl) ∙ ap some same,
          sym (ap (λ (x : Token). x.user_id) same),
        )
  ]

  -- What newAPIKey says of the key and its hash
  Hashed : Text → Text → Type 0
  Hashed raw hash = (hash_key env.sha256_hex raw ≡ some hash) × (has_prefix raw kind.prefix ≡ true)

  new_key-Gives : Gives Any Any (new_key env kind) (λ key t. Hashed key.0 key.1)
  unfolding new_key Hashed
  new_key-Gives =
      bind-Gives Any Any (λ hex. Any) (λ key t. Hashed key.0 key.1) _ _
        (Keeps-Gives Any Any _ (λ t h. h)
          (random_text-Keeps Any (λ e. other (text "generate api key: ") e)))
        (λ hex.
          let raw = kind.prefix ++ hex in
          bind-Gives Any Any (λ hash t. hash_key env.sha256_hex raw ≡ some hash)
            (λ key t. Hashed key.0 key.1) _ _
            (option_as Any (λ hash t. hash_key env.sha256_hex raw ≡ some hash)
              (other (text "empty api key") []) (hash_key env.sha256_hex raw) (λ hash t h e. e))
            (λ hash.
              pure_as (λ t. hash_key env.sha256_hex raw ≡ some hash) (λ key t. Hashed key.0 key.1)
                (raw, hash, take (length kind.prefix + 8) raw ++ ellipsis)
                (λ t h. (h, has_prefix-append kind.prefix hex))))

  insert-Gives :
      (hash prefix label : Text) → Gives Any Any (insert user hash prefix label) (Found hash)
  unfolding insert
  insert-Gives hash prefix label =
      bind-Gives Any Any (λ o t. (token : Token) → o ≡ some token → Found hash token t) (Found hash)
        _ _
        (statement-Gives Any Any (λ o t. (token : Token) → o ≡ some token → Found hash token t) _ _
          (λ t h. h) (λ t h token e. inserted hash prefix label t token e))
        (λ o.
          option_as (λ t. (token : Token) → o ≡ some token → Found hash token t) (Found hash) _ o
            (λ token t h e. h token e))

  issue-Gives : (label : Text) → Gives Any Any (issue env kind label user) Valid
  unfolding issue Hashed Found Valid
  issue-Gives label =
      bind-Gives Any Any (λ key t. Hashed key.0 key.1) Valid _ _ new_key-Gives
        (λ key. with_fact (Hashed key.0 key.1) Valid _ (λ (hashed, prefixed).
          bind-Gives Any Any (Found key.1) Valid _ _
            (insert-Gives key.1 key.2 (label_or_default env kind label))
            (λ (token : Token).
              pure_as (Found key.1 token) Valid
                (record {
                  id = token.id;
                  label = token.label;
                  key = key.0;
                  prefix = token.token_prefix;
                  created_at = token.created_at;
                })
                (λ t (f, u). (token, key.1, hashed, f, u, refl, prefixed)))))

  -- TouchLastUsed may fail.
  touched_ok :
      {A : Type 0} (r : Result AuthError (Unit {0}) × Db Table) (a : A)
      → (after (handle r (λ e. pure tt)) (λ u. pure a)).0 ≡ ok a
  touched_ok (ok u, db) a = refl
  touched_ok (err e, db) a = refl

  who_is : Token → Query AuthError Table (Text × ℕ)
  who_is token = do
    t ← now
    catch (touch_last_used token.id t) (λ e. pure tt)
    pure (token.user_id, token.id)

  who_is_ok : (token : Token) (db : Db Table) → (who_is token db).0 ≡ ok (token.user_id, token.id)
  unfolding who_is
  who_is_ok token db = touched_ok _ (token.user_id, token.id)

  found_token :
      (token : Token) (o : Option Token) (db : Db Table)
      → o ≡ some token
      → (of_option row_not_found o db).0 ≡ ok token
  found_token token o db h = rw h refl

  resolve_active_cases :
      (hash : Text) (token : Token) (db : Db Table)
      → find_active hash db.tables.rows ≡ some token
      → ((resolve_active hash db).0 ≡ ok token)
        ⊎ ((e : Text) × ((resolve_active hash db).0 ≡ err (other [] e)))
  unfolding resolve_active
  resolve_active_cases hash token db h =
      let fail : Text → AuthError = λ e. other [] e in
      let query : Table → Option Token = λ t. find_active hash t.rows in
      elim (select_cases fail query db) [
        | inl e ↦
            let e' = after_at (select fail query db) (λ found. of_option row_not_found found) _ e in
            inl (ap (λ r. r.0) e' ∙ found_token token (query db.tables) (select fail query db).1 h)
        | inr (x, e) ↦ inr (x, after_err _ _ (fail x) e)
      ]

  resolve_hash_cases :
      (hash : Text) (token : Token) (db : Db Table)
      → find_active hash db.tables.rows ≡ some token
      → ((resolve_hash env kind (some hash) db).0 ≡ ok (token.user_id, token.id))
        ⊎ ((e : Text) × ((resolve_hash env kind (some hash) db).0 ≡ err (other [] e)))
  unfolding resolve_hash not_found_as who_is
  resolve_hash_cases hash token db h =
      let handler : AuthError → Query AuthError Table Token =
        λ e. raise (not_found_as env kind unauthorized e) in
      let read = resolve_active hash db in
      let got = handle read handler in
      elim (resolve_active_cases hash token db h) [
        | inl e ↦ inl (
            ap (λ r. r.0) (after_at got who_is token (handle_ok read handler token e))
            ∙ who_is_ok token got.1)
        | inr (x, e) ↦ inr (x, after_err got who_is _ (ap (λ r. r.0) (handle_err read handler _ e)))
      ]

pairs : {a b : Text} {m n : ℕ} → a ≡ b → m ≡ n → ◌≡◌ {A = Text × ℕ} (a, m) (b, n)
pairs p q = cc

hashed_nonempty :
    (f : Text → Text) (raw hash : Text) → hash_key f raw ≡ some hash → is_empty raw ≡ false
unfolding hash_key trim_space
hashed_nonempty f [] hash h = cc
hashed_nonempty f (c ∷ raw) hash h = refl

-- A key that Create returned authenticates its user: when a bearer carries the key, the very next call of
-- ResolveAPIKeyAuth (or ResolvePublishAuth) returns the user and the identifier of the key, unless the query for the
-- key fails in the database.
pub issue-resolve_auth :
    (env : Env) (kind : Kind) (label user : Text) (db db' : Db Table) (c : Created)
    → issue env kind label user db ≡ (ok c, db')
    → (bearer : Text) → normalize_bearer bearer ≡ c.key
    → ((resolve_auth env kind bearer db').0 ≡ ok (user, c.id))
      ⊎ ((e : Text) × ((resolve_auth env kind bearer db').0 ≡ err (other [] e)))
unfolding Gives Valid resolve_auth
issue-resolve_auth env kind label user db db' c e bearer b =
    let (token, hash, hashed, found, u, i, prefixed) =
      subst (Ends Any (Valid env kind user)) e (issue-Gives env kind user label db tt) in
    rw b (
      rw (hashed_nonempty env.sha256_hex c.key hash hashed) (
        rw prefixed (
          rw hashed (
            subst
              (λ (who : Text × ℕ).
                ((resolve_hash env kind (some hash) db').0 ≡ ok who)
                ⊎ ((e : Text) × ((resolve_hash env kind (some hash) db').0 ≡ err (other [] e))))
              (pairs u i) (resolve_hash_cases env kind user hash token db' found)))))
