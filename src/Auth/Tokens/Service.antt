-- ===== src/Auth/Tokens/Service.antt =====
-- internal/module/auth/service: APIKeyService and PublishTokenService.
use naralabs_atlas.Prelude.{
  ℕ, ◌+◌, not, Option, none, some, List, [], ◌∷◌, ◌++◌, map, Text, text, has_prefix, is_empty,
  trim_space, leb, length, take, if◌then◌else◌,
}
use naralabs_atlas.Auth.Errors.{
  AuthError, unauthorized, token_not_found, token_limit, row_not_found, other,
}
use naralabs_atlas.Database.{Query, pure, raise, ◌>>=◌, ◌>>◌, catch, of_option, now, random_text}
use naralabs_atlas.Auth.Tokens.{
  Token, Table, Kind, api_key, publish_token, count_active, insert, list_by_user, revoke_row,
  resolve_active, touch_last_used, normalize_bearer,
}

-- The outside: AuthService.ParseUserID at a time (`none` is an error), the hexadecimal SHA-256, and how PostgreSQL
-- reads a text as a UUID.
pub record Env : Type 0 where
  pub parse_user : ℕ → Text → Option Text
  pub sha256_hex : Text → Text
  pub uuid_of : Text → Option ℕ

-- APIKeyPublic, with what Public() leaves out of a row.
pub record Public : Type 0 where
  pub id : ℕ
  pub label : Text
  pub prefix : Text
  pub last_used_at : Option ℕ
  pub created_at : ℕ

-- Public
unfoldable pub public : Token → Public
public t = record {
  id = t.id;
  label = t.label;
  prefix = t.token_prefix;
  last_used_at = t.last_used_at;
  created_at = t.created_at;
}

-- APIKeyCreateResult
pub record Created : Type 0 where
  pub id : ℕ
  pub label : Text
  pub key : Text
  pub prefix : Text
  pub created_at : ℕ

-- U+2026 in UTF-8
abbrev pub ellipsis : Text
ellipsis = 226 ∷ 128 ∷ 166 ∷ []

-- hashAPIKey; `none` is its error.
unfoldable pub hash_key : (Text → Text) → Text → Option Text
hash_key sha256_hex raw =
    if is_empty (trim_space raw) then none else some (sha256_hex (trim_space raw))

module _ (env : Env) (kind : Kind) where
  -- ParseUserID
  unfoldable pub user_of : Text → Query AuthError Table Text
  user_of authorization = do t ← now; of_option unauthorized (env.parse_user t authorization)

  -- newAPIKey: the key, its hash and its first characters. The random text has 48 digits, so that there are eight of
  -- them behind the prefix.
  unfoldable pub new_key : Query AuthError Table (Text × Text × Text)
  unfolding hash_key
  new_key = do
    hex ← random_text (λ e. other (text "generate api key: ") e)
    let raw = kind.prefix ++ hex
    hash ← of_option (other (text "empty api key") []) (hash_key env.sha256_hex raw)
    pure (raw, hash, take (length kind.prefix + 8) raw ++ ellipsis)

  unfoldable pub label_or_default : Text → Text
  label_or_default label =
      if is_empty (trim_space label) then kind.default_label else trim_space label

  unfoldable pub below_limit : ℕ → Query AuthError Table (Unit {0})
  below_limit count = if leb kind.limit count then raise token_limit else pure tt

  -- Create up to the test on the number of keys.
  unfoldable pub admit : Text → Query AuthError Table Text
  unfolding user_of below_limit
  admit authorization = do
    user ← user_of authorization
    count ← count_active user
    below_limit count
    pure user

  -- The rest of Create.
  unfoldable pub issue : Text → Text → Query AuthError Table Created
  unfolding new_key label_or_default
  issue label user = do
    (raw, hash, prefix) ← new_key
    key ← insert user hash prefix (label_or_default label)
    pure (record {
      id = key.id;
      label = key.label;
      key = raw;
      prefix = key.token_prefix;
      created_at = key.created_at;
    })

  -- Create
  unfoldable pub create : Text → Text → Query AuthError Table Created
  unfolding admit issue
  create authorization label = admit authorization >>= issue label

  -- List
  unfoldable pub list : Text → Query AuthError Table (ℕ × List Public)
  unfolding user_of public
  list authorization = do
    user ← user_of authorization
    items ← list_by_user user
    pure (length items, map public items)

  -- errors.Is(err, repository.ErrAPIKeyNotFound)
  unfoldable pub not_found_as : AuthError → AuthError → AuthError
  not_found_as e row_not_found = e
  not_found_as e other_error = other_error

  unfoldable pub revoke_id : Text → ℕ → Option ℕ → Query AuthError Table (Unit {0})
  revoke_id user at none = raise (other [] (text "invalid input syntax for type uuid"))
  revoke_id user at (some id) = revoke_row user id at

  -- Revoke
  unfoldable pub revoke : Text → Text → Query AuthError Table (Unit {0})
  unfolding user_of not_found_as revoke_id
  revoke authorization key_id = do
    user ← user_of authorization
    (if is_empty (trim_space key_id)
        then raise token_not_found
        else catch (do t ← now; revoke_id user t (env.uuid_of (trim_space key_id)))
            (λ e. raise (not_found_as token_not_found e)))

  unfoldable pub resolve_hash : Option Text → Query AuthError Table (Text × ℕ)
  unfolding not_found_as
  resolve_hash none = raise unauthorized
  resolve_hash (some hash) = do
    key ← catch (resolve_active hash) (λ e. raise (not_found_as unauthorized e))
    t ← now
    catch (touch_last_used key.id t) (λ e. pure tt)
    pure (key.user_id, key.id)

  -- ResolveAPIKeyAuth
  unfoldable pub resolve_auth : Text → Query AuthError Table (Text × ℕ)
  unfolding resolve_hash hash_key
  resolve_auth authorization =
      let raw = normalize_bearer authorization in
      if is_empty raw
      then raise unauthorized
      else if not (has_prefix raw kind.prefix)
      then raise unauthorized
      else resolve_hash (hash_key env.sha256_hex raw)

-- ValidateOptionalAPIKey
pub validate_optional_api_key : Env → Text → Query AuthError Table (Unit {0})
unfolding resolve_auth
validate_optional_api_key env authorization =
    let raw = normalize_bearer authorization in
    if is_empty raw
    then pure tt
    else if not (has_prefix raw api_key.prefix)
    then raise unauthorized
    else (do r ← resolve_auth env api_key authorization; pure tt)

-- RequireAPIKey
pub require_api_key : Env → Text → Query AuthError Table (Unit {0})
unfolding resolve_auth
require_api_key env authorization =
    if is_empty (normalize_bearer authorization)
    then raise unauthorized
    else (do r ← resolve_auth env api_key authorization; pure tt)

-- PublishTokenService: Create, List, Revoke and ResolvePublishAuth
pub create_publish_token : Env → Text → Text → Query AuthError Table Created
create_publish_token env = create env publish_token

pub list_publish_tokens : Env → Text → Query AuthError Table (ℕ × List Public)
list_publish_tokens env = list env publish_token

pub revoke_publish_token : Env → Text → Text → Query AuthError Table (Unit {0})
revoke_publish_token env = revoke env publish_token

pub resolve_publish_auth : Env → Text → Query AuthError Table (Text × ℕ)
resolve_publish_auth env = resolve_auth env publish_token

-- ResolvePublishUserID
pub resolve_publish_user_id : Env → Text → Query AuthError Table Text
resolve_publish_user_id env authorization = do r ← resolve_publish_auth env authorization; pure r.0

-- ResolvePublishTokenID
pub resolve_publish_token_id : Env → Text → Query AuthError Table ℕ
resolve_publish_token_id env authorization = do r ← resolve_publish_auth env authorization; pure r.1
