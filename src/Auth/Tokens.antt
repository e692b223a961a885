-- ===== src/Auth/Tokens.antt =====
-- internal/module/auth: API keys (repository/api_key_repository.go, service/api_key_service.go) and publish tokens
-- (repository/publish_token_repository.go, service/publish_token_service.go). The two pairs of files differ in their
-- table, their constants and their messages only: here `Kind`. A user's session and SHA-256 are parameters.
pub mod Service
pub mod Stable
pub mod Count
pub mod Limit
pub mod RoundTrip
pub mod Dead
pub mod Lifecycle
use naralabs_atlas.Prelude.{
  ℕ, zero, suc, ◌+◌, ◌&&◌, Bool, true, false, not, Option, none, some, List, [], ◌∷◌, ◌++◌, map,
  Text, text, text_eq, has_prefix, is_empty, trim_space, trim_prefix, leb, Result, ok, err, length,
  keep, take, reverse, ◌==◌, ◌||◌, if◌then◌else◌,
}
use naralabs_atlas.Auth.Errors.{
  AuthError, unauthorized, token_not_found, token_limit, row_not_found, other,
}
use naralabs_atlas.Database.{
  Db, Query, pure, raise, after, ◌>>=◌, ◌>>◌, handle, catch, of_option, statement, select, update,
  now, random_text,
}

-- A row of the table, with its column token_hash.
pub record Token : Type 0 where
  pub id : ℕ
  pub user_id : Text
  pub token_hash : Text
  pub token_prefix : Text
  pub label : Text
  pub last_used_at : Option ℕ
  pub revoked_at : Option ℕ
  pub created_at : ℕ

-- The table in the order of insertion. `issued` counts the ids that gen_random_uuid() has given; they are numbers
-- here, and `time` is the server's clock behind DEFAULT NOW().
pub record Table : Type 0 where
  pub rows : List Token
  pub issued : ℕ
  pub time : ℕ

-- APIKeyPrefix, maxAPIKeys and the default label, and their counterparts
pub record Kind : Type 0 where
  pub prefix : Text
  pub limit : ℕ
  pub default_label : Text

abbrev pub api_key : Kind
api_key = record { prefix = text "nl_api_"; limit = 3; default_label = text "Default" }

abbrev pub publish_token : Kind
publish_token = record { prefix = text "nl_live_"; limit = 5; default_label = text "CLI" }

abbrev pub is_none : {A : Type 0} → Option A → Bool
is_none none = true
is_none (some a) = false

-- user_id = $1 AND revoked_at IS NULL
abbrev pub is_active_of : Text → Token → Bool
is_active_of user t = text_eq t.user_id user && is_none t.revoked_at

abbrev fail : Text → AuthError
fail e = other [] e

-- CountActiveByUser
unfoldable pub count_active : Text → Query AuthError Table ℕ
count_active user = select fail (λ t. length (keep (is_active_of user) t.rows))

-- token_hash has the constraint UNIQUE.
unfoldable pub has_hash : Text → List Token → Bool
has_hash hash [] = false
has_hash hash (t ∷ ts) = text_eq t.token_hash hash || has_hash hash ts

unfoldable pub new_token : Text → Text → Text → Text → Table → Token
new_token user hash prefix label t = record {
  id = t.issued;
  user_id = user;
  token_hash = hash;
  token_prefix = prefix;
  label = label;
  last_used_at = none;
  revoked_at = none;
  created_at = t.time;
}

unfoldable pub insert_row : Text → Text → Text → Text → Table → Option Token × Table
unfolding has_hash new_token
insert_row user hash prefix label t = if has_hash hash t.rows then (none, t) else (
  some (new_token user hash prefix label t),
  record t { rows = t.rows ++ new_token user hash prefix label t ∷ []; issued = t.issued + 1 },
)

-- Insert
unfoldable pub insert : Text → Text → Text → Text → Query AuthError Table Token
unfolding insert_row
insert user hash prefix label = do
  inserted ← statement fail (insert_row user hash prefix label)
  of_option (fail (text "duplicate key")) inserted

-- ORDER BY created_at DESC, of rows that were created in their order
latest_first : List Token → List Token
latest_first = reverse

-- ListByUser
pub list_by_user : Text → Query AuthError Table (List Token)
unfolding latest_first
list_by_user user = select fail (λ t. latest_first (keep (is_active_of user) t.rows))

-- The UPDATE of Revoke, and the number of rows that it changed.
unfoldable pub revoke_rows : Text → ℕ → ℕ → List Token → ℕ × List Token
revoke_rows user id at [] = (0, [])
revoke_rows user id at (t ∷ ts) =
    let (n, ts') = revoke_rows user id at ts in
    if t.id == id && is_active_of user t
    then (n + 1, record t { revoked_at = some at } ∷ ts')
    else (n, t ∷ ts')

-- Revoke of the repository
unfoldable pub revoke_row : Text → ℕ → ℕ → Query AuthError Table (Unit {0})
unfolding revoke_rows
revoke_row user id at = do
  n ←
      statement fail
        (λ t. let (n, rows) = revoke_rows user id at t.rows in (n, record t { rows = rows }))
  if n == 0 then raise row_not_found else pure tt

-- The row with the hash that is not revoked.
pub find_active : Text → List Token → Option Token
find_active hash [] = none
find_active hash (t ∷ ts) =
    if text_eq t.token_hash hash && is_none t.revoked_at then some t else find_active hash ts

-- ResolveActive
pub resolve_active : Text → Query AuthError Table Token
unfolding find_active
resolve_active hash = do
  found ← select fail (λ t. find_active hash t.rows)
  of_option row_not_found found

pub touch : ℕ → ℕ → List Token → List Token
touch id at = map (λ t. if t.id == id then record t { last_used_at = some at } else t)

-- TouchLastUsed
pub touch_last_used : ℕ → ℕ → Query AuthError Table (Unit {0})
unfolding touch
touch_last_used id at = update fail (λ t. record t { rows = touch id at t.rows })

-- normalizeBearer
unfoldable pub normalize_bearer : Text → Text
normalize_bearer raw = trim_prefix (trim_space raw) (text "Bearer ")
