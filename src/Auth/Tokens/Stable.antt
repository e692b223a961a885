-- ===== src/Auth/Tokens/Stable.antt =====
-- What the methods of the service keep of the table, and the service as a system of interleaved calls
-- (internal/module/auth/service: api_key_service.go, publish_token_service.go).
use naralabs_atlas.Prelude.{
  ℕ, ◌≤◌, ◌≡◌, not, Option, none, some, List, [], ◌∷◌, ◌++◌, map, Text, text, subst, has_prefix,
  is_empty, trim_space, leb, ok, err, length, ◌==◌,
}
use naralabs_atlas.Auth.Errors.{
  AuthError, unauthorized, token_not_found, token_limit, row_not_found, other,
}
use naralabs_atlas.Database.{Db}
use naralabs_atlas.Database.Keeps.{
  Keeps, bind-Keeps, catch-Keeps, pure-Keeps, raise-Keeps, of_option-Keeps, if-Keeps,
  statement-Keeps, select-Keeps, now-Keeps, random_text-Keeps,
}
use naralabs_atlas.Auth.Tokens.{
  Token, Table, Kind, count_active, insert_row, insert, list_by_user, revoke_rows, revoke_row,
  resolve_active, touch, touch_last_used, normalize_bearer,
}
use naralabs_atlas.Auth.Tokens.Service.{
  Env, hash_key, public, not_found_as, user_of, below_limit, label_or_default, new_key, admit,
  issue, list, revoke_id, revoke, resolve_hash, resolve_auth,
}

-- A property of the table that the two UPDATE statements keep, and one that an INSERT keeps too.
pub record Stable (P : Table → Type 0) : Type 0 where
  pub revoked :
      (user : Text) (id at : ℕ) (t : Table)
      → P t
      → P (record t { rows = (revoke_rows user id at t.rows).1 })
  pub touched : (id at : ℕ) (t : Table) → P t → P (record t { rows = touch id at t.rows })

pub record Lasting (P : Table → Type 0) : Type 0 where
  pub stable : Stable P
  pub inserted :
      (user hash prefix label : Text) (t : Table) → P t → P (insert_row user hash prefix label t).1

module _ (P : Table → Type 0) where
  resolve_active-Keeps : (hash : Text) → Keeps P (resolve_active hash)
  unfolding resolve_active
  resolve_active-Keeps hash =
      bind-Keeps P _ _ (select-Keeps P _ _) (λ o. of_option-Keeps P row_not_found o)

module _ (P : Table → Type 0) (stable : Stable P) where
  revoke_row-Keeps : (user : Text) (id at : ℕ) → Keeps P (revoke_row user id at)
  unfolding revoke_row
  revoke_row-Keeps user id at =
      bind-Keeps P _ _ (statement-Keeps P _ _ (λ t h. stable.revoked user id at t h))
        (λ n. if-Keeps P (n == 0) _ _ (raise-Keeps P _ row_not_found) (pure-Keeps AuthError P tt))

  touch-Keeps : (id at : ℕ) → Keeps P (touch_last_used id at)
  unfolding touch_last_used
  touch-Keeps id at = statement-Keeps P _ _ (λ t h. stable.touched id at t h)

module _ (env : Env) (kind : Kind) where
  pub user_of-Keeps :
      (P : Table → Type 0) (authorization : Text) → Keeps P (user_of env kind authorization)
  unfolding user_of
  user_of-Keeps P authorization =
      bind-Keeps P _ _ (now-Keeps AuthError P)
        (λ t. of_option-Keeps P unauthorized (env.parse_user t authorization))

  pub list-Keeps :
      (P : Table → Type 0) (authorization : Text) → Keeps P (list env kind authorization)
  unfolding list list_by_user
  list-Keeps P authorization = bind-Keeps P _ _ (user_of-Keeps P authorization) (λ user.
      bind-Keeps P _ _ (select-Keeps P _ _)
        (λ items. pure-Keeps AuthError P (length items, map public items)))

  pub new_key-Keeps : (P : Table → Type 0) → Keeps P (new_key env kind)
  unfolding new_key
  new_key-Keeps P =
      bind-Keeps P _ _ (random_text-Keeps P (λ e. other (text "generate api key: ") e)) (λ hex.
        bind-Keeps P _ _
          (of_option-Keeps P (other (text "empty api key") [])
            (hash_key env.sha256_hex (kind.prefix ++ hex)))
          (λ hash. pure-Keeps AuthError P _))

  pub admit-Keeps :
      (P : Table → Type 0) (authorization : Text) → Keeps P (admit env kind authorization)
  unfolding admit count_active below_limit
  admit-Keeps P authorization = bind-Keeps P _ _ (user_of-Keeps P authorization) (λ user.
      bind-Keeps P _ _ (select-Keeps P _ _) (λ n.
        bind-Keeps P _ _
          (if-Keeps P (leb kind.limit n) _ _ (raise-Keeps P _ token_limit)
            (pure-Keeps AuthError P tt))
          (λ u. pure-Keeps AuthError P user)))

module _ (env : Env) (kind : Kind) (P : Table → Type 0) (stable : Stable P) where
  revoke_id-Keeps : (user : Text) (at : ℕ) (id : Option ℕ) → Keeps P (revoke_id env kind user at id)
  unfolding revoke_id
  revoke_id-Keeps user at none =
      raise-Keeps P _ (other [] (text "invalid input syntax for type uuid"))
  revoke_id-Keeps user at (some id) = revoke_row-Keeps P stable user id at

  pub revoke-Keeps : (authorization id : Text) → Keeps P (revoke env kind authorization id)
  unfolding revoke
  revoke-Keeps authorization id = bind-Keeps P _ _ (user_of-Keeps env kind P authorization) (λ user.
      if-Keeps P (is_empty (trim_space id)) _ _ (raise-Keeps P _ token_not_found) (
        catch-Keeps P _ _
          (bind-Keeps P _ _ (now-Keeps AuthError P)
            (λ t. revoke_id-Keeps user t (env.uuid_of (trim_space id))))
          (λ e. raise-Keeps P _ (not_found_as env kind token_not_found e))))

  resolve_hash-Keeps : (hash : Option Text) → Keeps P (resolve_hash env kind hash)
  unfolding resolve_hash
  resolve_hash-Keeps none = raise-Keeps P _ unauthorized
  resolve_hash-Keeps (some hash) =
      bind-Keeps P {A = Token} _ _
        (catch-Keeps P _ _ (resolve_active-Keeps P hash)
          (λ e. raise-Keeps P _ (not_found_as env kind unauthorized e)))
        (λ (key : Token). bind-Keeps P _ _ (now-Keeps AuthError P) (λ t.
          bind-Keeps P _ _
            (catch-Keeps P _ _ (touch-Keeps P stable key.id t) (λ e. pure-Keeps AuthError P tt))
            (λ u. pure-Keeps AuthError P (key.user_id, key.id))))

  pub resolve_auth-Keeps : (authorization : Text) → Keeps P (resolve_auth env kind authorization)
  unfolding resolve_auth
  resolve_auth-Keeps authorization =
      let raw = normalize_bearer authorization in
      if-Keeps P (is_empty raw) _ _ (raise-Keeps P _ unauthorized) (
        if-Keeps P (not (has_prefix raw kind.prefix)) _ _ (raise-Keeps P _ unauthorized)
          (resolve_hash-Keeps (hash_key env.sha256_hex raw)))

module _ (env : Env) (kind : Kind) (P : Table → Type 0) (lasting : Lasting P) where
  insert-Keeps : (user hash prefix label : Text) → Keeps P (insert user hash prefix label)
  unfolding insert
  insert-Keeps user hash prefix label =
      bind-Keeps P _ _ (statement-Keeps P _ _ (λ t h. lasting.inserted user hash prefix label t h))
        (λ o. of_option-Keeps P _ o)

  pub issue-Keeps : (label user : Text) → Keeps P (issue env kind label user)
  unfolding issue
  issue-Keeps label user = bind-Keeps P _ _ (new_key-Keeps env kind P) (λ key.
      bind-Keeps P _ _ (insert-Keeps user key.1 key.2 (label_or_default env kind label))
        (λ token. pure-Keeps AuthError P _))

-- The service with calls of Create in flight: `pending` are the users who passed the test on the number of tokens and
-- whose token is not inserted yet. The other methods are one step, as each changes one table by one statement.
pub record System : Type 0 where
  pub db : Db Table
  pub pending : List Text

module _ (env : Env) (kind : Kind) where
  pub data Step (k : ℕ) : System → System → Type 0 where
    admits :
        (authorization user : Text) (db db' : Db Table) (pending : List Text)
        → admit env kind authorization db ≡ (ok user, db')
        → length pending ≤ k
        → Step k
            (record { db = db; pending = pending })
            (record { db = db'; pending = user ∷ pending })
    refuses :
        (authorization : Text) (e : AuthError) (db db' : Db Table) (pending : List Text)
        → admit env kind authorization db ≡ (err e, db')
        → Step k (record { db = db; pending = pending }) (record { db = db'; pending = pending })
    issues :
        (label user : Text) (db : Db Table) (before behind : List Text)
        → Step k
            (record { db = db; pending = before ++ user ∷ behind })
            (record { db = (issue env kind label user db).1; pending = before ++ behind })
    lists :
        (authorization : Text) (db : Db Table) (pending : List Text)
        → Step k
            (record { db = db; pending = pending })
            (record { db = (list env kind authorization db).1; pending = pending })
    revokes :
        (authorization id : Text) (db : Db Table) (pending : List Text)
        → Step k
            (record { db = db; pending = pending })
            (record { db = (revoke env kind authorization id db).1; pending = pending })
    resolves :
        (authorization : Text) (db : Db Table) (pending : List Text)
        → Step k
            (record { db = db; pending = pending })
            (record { db = (resolve_auth env kind authorization db).1; pending = pending })

  pub data Reach (k : ℕ) (s : System) : System → Type 0 where
    start : Reach k s s
    next : (t u : System) → Reach k s t → Step k t u → Reach k s u

module _ (env : Env) (kind : Kind) (P : Table → Type 0) (lasting : Lasting P) (k : ℕ) where
  step_lasting : (s s' : System) → Step env kind k s s' → P s.db.tables → P s'.db.tables
  unfolding Keeps
  step_lasting _ _ (admits authorization user db db' pending e le) h =
      subst (λ r. P r.1.tables) e (admit-Keeps env kind P authorization db h)
  step_lasting _ _ (refuses authorization e db db' pending eq) h =
      subst (λ r. P r.1.tables) eq (admit-Keeps env kind P authorization db h)
  step_lasting _ _ (issues label user db before behind) h =
      issue-Keeps env kind P lasting label user db h
  step_lasting _ _ (lists authorization db pending) h = list-Keeps env kind P authorization db h
  step_lasting _ _ (revokes authorization id db pending) h =
      revoke-Keeps env kind P lasting.stable authorization id db h
  step_lasting _ _ (resolves authorization db pending) h =
      resolve_auth-Keeps env kind P lasting.stable authorization db h

  -- A lasting property holds in every state that the service reaches.
  pub reach_lasting : (s s' : System) → Reach env kind k s s' → P s.db.tables → P s'.db.tables
  reach_lasting s _ start h = h
  reach_lasting s _ (next t t' reach step) h = step_lasting t t' step (reach_lasting s t reach h)
