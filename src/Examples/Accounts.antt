-- ===== src/Examples/Accounts.antt =====
-- Concrete users of internal/module/auth.
use naralabs_atlas.Prelude.{
  ℕ, ◌≡◌, ◌↔◌, ◌≢◌, refl, true, Option, none, some, List, [], ◌∷◌, Text, text, trim_space, to_lower,
  text_eq, text_eq_refl, ok, err, arith, subst,
}
use naralabs_atlas.Auth.Passwords.{Strong, validate_password-Strong}
use naralabs_atlas.Auth.Sessions.{validate_password}
use naralabs_atlas.Auth.Errors.{invalid_credentials}
use naralabs_atlas.Database.{Db}
use naralabs_atlas.Auth.Users.{
  User, Link, Accounts, first, normalize_email, update_password_hash, get_user_by_id, user_public,
}
use naralabs_atlas.Auth.Links.{consume_password_reset_token}
use naralabs_atlas.Auth.Accounts.{reset_password, login}
use naralabs_atlas.Auth.Sessions.{AuthEnv, Session}
use naralabs_atlas.Auth.Accounts.Single.{Single, opens}
use naralabs_atlas.Auth.Accounts.Calls.{registers, forgets, resets_with, run_all, run_all-Single}
use naralabs_atlas.Auth.Accounts.Reset.{Bcrypt, reset-login}

abbrev env : AuthEnv
env = record {
  jwt_secret = text "secret";
  jwt_expiry = 100;
  verification_token_ttl = 100;
  verification_resend_cooldown = 10;
  reset_token_ttl = 100;
  reset_resend_cooldown = 10;
  web_app_url = [];
  uuid = λ n. text "ada";
  sha256_hex = λ raw. raw;
  bcrypt = λ salt password. some password;
  matches = text_eq;
  is_address = λ address. true;
  url_with = λ base query. some base;
  sign = λ secret claims. some claims.sub;
  subject = λ secret t token. some token;
}

accepts_hashed : Bcrypt env
unfolding Bcrypt
accepts_hashed salt password hash h =
    subst (λ x. text_eq x password ≡ true) (same password hash h) (text_eq_refl password)
  where
    same : (a b : Text) → some a ≡ some b → a ≡ b
    same a b e = cc e

abbrev empty : Db Accounts
empty = record {
  tables = record {
    users = [];
    verifications = [];
    resets = [];
    outbox = [];
    issued = 0;
    time = 0;
  };
  faults = [];
  clock = 50;
  ticks = 20 ∷ [];
  random = some (text "aa") ∷ some (text "bb") ∷ some (text "cc") ∷ some (text "dd") ∷ [];
}

nobody-Single : Single empty.tables
unfolding Single opens
nobody-Single user = (omega arith, omega arith)

run_all-Single_example :
    Single
      (run_all env
        (registers (text "a@b.c") (text "Passw0rd") []
          ∷ forgets (text "a@b.c")
          ∷ resets_with (text "cc") (text "Newpassw0rd")
          ∷ [])
        empty).tables
run_all-Single_example =
    run_all-Single env
      (registers (text "a@b.c") (text "Passw0rd") []
        ∷ forgets (text "a@b.c")
        ∷ resets_with (text "cc") (text "Newpassw0rd")
        ∷ [])
      empty nobody-Single

abbrev user : Text → User
user password = record {
  id = text "ada";
  email = text "a@b.c";
  password_hash = password;
  email_verified_at = some 1;
  created_at = 0;
  updated_at = 0;
}

abbrev link : Option ℕ → Link
link consumed = record {
  id = 0;
  user_id = text "ada";
  token_hash = text "cc";
  expires_at = 60;
  consumed_at = consumed;
  created_at = 0;
}

abbrev state : Text → Option ℕ → List (Option Text) → Db Accounts
state password consumed random = record {
  tables = record {
    users = user password ∷ [];
    verifications = [];
    resets = link consumed ∷ [];
    outbox = [];
    issued = 1;
    time = 0;
  };
  faults = [];
  clock = 50;
  ticks = [];
  random = random;
}

abbrev session : Session
session = record {
  token = text "ada";
  expires_at = 150;
  user = record {
    id = text "ada";
    email = text "a@b.c";
    email_verified = true;
    verified_at = some 1;
  };
}

was_reset :
    reset_password env
      (text "cc")
      (text "Newpassw0rd")
      (state (text "Passw0rd") none (some (text "salt") ∷ []))
    ≡ (ok session, state (text "Newpassw0rd") (some 50) [])
unfolding reset_password trim_space consume_password_reset_token update_password_hash get_user_by_id
    user_public
was_reset = refl

reset-login_example :
    (login env (text " A@b.c") (text "Newpassw0rd") (state (text "Newpassw0rd") (some 50) [])).0
    ≢ err invalid_credentials
unfolding first normalize_email to_lower trim_space
reset-login_example =
    reset-login env accepts_hashed (text "cc") (text "Newpassw0rd") session
      (state (text "Passw0rd") none (some (text "salt") ∷ []))
      (state (text "Newpassw0rd") (some 50) []) was_reset (text " A@b.c") refl

validate_password-Strong_example :
    ((validate_password (text "Passw0rd") empty).0 ≡ ok tt) ↔ Strong (text "Passw0rd")
validate_password-Strong_example = validate_password-Strong (text "Passw0rd") empty
