-- ===== src/Examples/Auth.antt =====
-- Concrete users, tokens and challenges: internal/module/auth and the verification of internal/module/registry.
use naralabs_atlas.Prelude.{
  ℕ, ◌≡◌, ◌≢◌, ◌⊎◌, refl, Option, none, some, [], ◌∷◌, ◌++◌, Text, text, trim_space, trim_prefix,
  ok, err, arith,
}
use naralabs_atlas.Database.{Db}
use naralabs_atlas.Auth.Errors.{other}
use naralabs_atlas.Auth.Tokens.RoundTrip.{issue-resolve_auth}
use naralabs_atlas.Auth.Tokens.{
  Token, insert, insert_row, new_token, has_hash, normalize_bearer, Table, api_key, count_active,
  revoke_row, revoke_rows,
}
use naralabs_atlas.Auth.Tokens.Service.{
  Env, Created, ellipsis, new_key, hash_key, label_or_default, admit, issue, revoke, resolve_auth,
  user_of,
}
use naralabs_atlas.Auth.Tokens.Stable.{admits, issues, Reach, start, next}
use naralabs_atlas.Auth.Tokens.Count.{active, waiting}
use naralabs_atlas.Auth.Tokens.Limit.{Within, Reach-Within}
use naralabs_atlas.Auth.Tokens.Dead.{Numbered}
use naralabs_atlas.Auth.Tokens.Lifecycle.{revoked_forever}

abbrev ada : Text
ada = text "ada"

abbrev tokens_env : Env
tokens_env = record {
  parse_user = λ t authorization. some authorization;
  sha256_hex = λ raw. raw;
  uuid_of = λ id. some 0;
}

abbrev no_tokens : Db Table
no_tokens = record {
  tables = record { rows = []; issued = 0; time = 0 };
  faults = [];
  clock = 0;
  ticks = [];
  random = some (text "1a2b3c4d") ∷ some (text "5e6f7a8b") ∷ [];
}

abbrev first_issued : Db Table
first_issued = (issue tokens_env api_key [] ada no_tokens).1

-- Two calls of Create that both pass the test before the first of them inserts.
two_calls :
    Reach tokens_env api_key 1
      (record { db = no_tokens; pending = [] })
      (record { db = (issue tokens_env api_key [] ada first_issued).1; pending = [] })
unfolding admit user_of count_active
two_calls =
    next _ _
      (next _ _
        (next _ _ (next _ _ start (admits ada ada no_tokens no_tokens [] refl (omega arith)))
          (admits ada ada no_tokens no_tokens (ada ∷ []) refl (omega arith)))
        (issues [] ada no_tokens [] (ada ∷ [])))
      (issues [] ada first_issued [] [])

nobody-Within : Within api_key 1 (record { db = no_tokens; pending = [] })
unfolding Within active waiting
nobody-Within = ((λ user. omega arith), omega arith)

Reach-Within_example :
    Within api_key 1
      (record { db = (issue tokens_env api_key [] ada first_issued).1; pending = [] })
Reach-Within_example = Reach-Within tokens_env api_key 1 _ _ two_calls nobody-Within

abbrev row : Option ℕ → Token
row revoked = record {
  id = 0;
  user_id = ada;
  token_hash = text "nl_api_1a";
  token_prefix = [];
  label = [];
  last_used_at = none;
  revoked_at = revoked;
  created_at = 0;
}

abbrev with_row : Option ℕ → Db Table
with_row revoked = record {
  tables = record { rows = row revoked ∷ []; issued = 1; time = 0 };
  faults = [];
  clock = 7;
  ticks = [];
  random = [];
}

row-Numbered : Numbered (with_row none).tables
unfolding Numbered
row-Numbered = (omega arith, tt)

known : (user_of tokens_env api_key ada (with_row none)).0 ≡ ok ada
unfolding user_of
known = refl

revoked_now : revoke tokens_env api_key ada (text "0") (with_row none) ≡ (ok tt, with_row (some 7))
unfolding revoke revoke_row revoke_rows trim_space
revoked_now = refl

revoked_forever_example :
    resolve_auth tokens_env api_key (text "Bearer nl_api_1a") (with_row (some 7))
    ≢ (ok (ada, 0), with_row (some 7))
revoked_forever_example =
    revoked_forever tokens_env api_key ada 0 ada (text "0") (with_row none) (with_row (some 7)) refl
      known row-Numbered revoked_now 0 [] (record { db = with_row (some 7); pending = [] }) start
      (text "Bearer nl_api_1a") (with_row (some 7))

abbrev created : Created
created = record {
  id = 0;
  label = api_key.default_label;
  key = text "nl_api_1a2b3c4d";
  prefix = text "nl_api_1a2b3c4d" ++ ellipsis;
  created_at = 0;
}

issue_first : issue tokens_env api_key [] ada no_tokens ≡ (ok created, first_issued)
unfolding issue new_key hash_key label_or_default insert insert_row new_token has_hash trim_space
issue_first = refl

bearer_key : normalize_bearer (text "Bearer nl_api_1a2b3c4d") ≡ text "nl_api_1a2b3c4d"
unfolding normalize_bearer trim_space trim_prefix
bearer_key = refl

issue-resolve_auth_example :
    ((resolve_auth tokens_env api_key (text "Bearer nl_api_1a2b3c4d") first_issued).0 ≡ ok (ada, 0))
    ⊎ ((e : Text) × ((resolve_auth tokens_env api_key
            (text "Bearer nl_api_1a2b3c4d")
            first_issued).0
          ≡ err (other [] e)))
issue-resolve_auth_example =
    issue-resolve_auth tokens_env api_key [] ada no_tokens first_issued created issue_first
      (text "Bearer nl_api_1a2b3c4d") bearer_key
