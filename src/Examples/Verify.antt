-- ===== src/Examples/Verify.antt =====
-- A concrete contract that its deployer verifies: internal/module/registry.
use naralabs_atlas.Prelude.{
  ℕ, ◌≡◌, ◌≢◌, refl, true, false, List, text_eq, arith, Option, none, some, [], ◌∷◌, Text, text,
  trim_space, to_lower, ok,
}
use naralabs_atlas.Database.{Db}
use naralabs_atlas.Registry.Verify.{
  Challenge, EventSchema, TrustTier, community, verified, published, Registry, get_by_id_for_user,
  get_authority, consume, use_challenge, use_rows,
}
use naralabs_atlas.Registry.Verify.Promote.{verify_contract_for_publisher}
use naralabs_atlas.Registry.Verify.Service.{
  VerifyEnv, Verified, unreachable, verify_contract, is_authorized_wallet,
}
use naralabs_atlas.Registry.Validate.{normalize_contract_id, resolve_network}
use naralabs_atlas.Registry.Verify.Nonces.{OneNonce, OneRow, NoRow}
use naralabs_atlas.Registry.Verify.Latest.{In, Beaten, Ascending, latest_by_event-Latest}
use naralabs_atlas.Registry.Verify.Promote.{latest_by_event}
use naralabs_atlas.Registry.Bundles.{text_lt}
use naralabs_atlas.Registry.Verify.Once.{verified_once}
use naralabs_atlas.Registry.Verify.Calls.{run_all}

abbrev env : VerifyEnv
env = record {
  parse_user = λ t authorization. some authorization;
  before = λ a b. false;
  rfc3339 = λ t. [];
  base64 = some;
  account_key = λ wallet. some (text "01234567890123456789012345678901");
  sha256 = λ message. message;
  ed25519 = λ key digest signature. true;
  default_network = text "testnet";
}

abbrev contract : Text
contract = text "CCONTRACT1"

abbrev wallet : Text
wallet = text "GDEPLOYER"

abbrev schema : TrustTier → Option ℕ → Option Text → EventSchema
schema tier at by = record {
  id = 4;
  contract_id = contract;
  network = text "testnet";
  event_name = text "transfer";
  version = 1;
  publisher_user_id = some (text "ada");
  trust_tier = tier;
  status = published;
  verified_wallet = by;
  verified_at = at;
}

abbrev challenge : Option ℕ → Challenge
challenge used = record {
  project_id = text "p";
  user_id = text "ada";
  contract_id = contract;
  network = text "testnet";
  nonce = text "n1";
  message = text "sign me";
  expires_at = 9;
  used_at = used;
}

abbrev state : Option ℕ → EventSchema → Db Registry
state used row = record {
  tables = record {
    projects = record { id = text "p"; user_id = text "ada"; archived = false } ∷ [];
    challenges = challenge used ∷ [];
    schemas = row ∷ [];
    authorities = record { contract_id = contract; network = text "testnet"; wallet = wallet } ∷ [];
  };
  faults = [];
  clock = 5;
  ticks = [];
  random = [];
}

abbrev before_it : Db Registry
before_it = state none (schema community none none)

abbrev after_it : Db Registry
after_it = state (some 5) (schema verified (some 5) (some wallet))

abbrev response : Verified
response = record {
  contract_id = contract;
  network = text "testnet";
  wallet = wallet;
  verified_at = 5;
  events = record { event_name = text "transfer"; schema_id = 4; version = 1 } ∷ [];
}

one_row : OneNonce (text "n1") before_it.tables
unfolding OneNonce OneRow NoRow
one_row = ((λ e. tt), tt)

promoted :
    verify_contract env
      (λ url. unreachable)
      (text "ada")
      (text "p")
      contract
      []
      wallet
      (text "n1")
      []
      before_it
    ≡ (ok response, after_it)
unfolding verify_contract get_by_id_for_user normalize_contract_id trim_space resolve_network
    consume use_challenge use_rows is_authorized_wallet verify_contract_for_publisher to_lower
    get_authority
promoted = refl

verified_once_example :
    verify_contract env
      (λ url. unreachable)
      (text "eve")
      (text "p")
      contract
      []
      wallet
      (text "n1")
      []
      (run_all env [] after_it)
    ≢ (ok response, after_it)
unfolding trim_space
verified_once_example =
    verified_once env (λ url. unreachable) (λ url. unreachable) (text "ada") (text "p") contract []
      wallet (text "n1") [] (text "eve") (text "p") contract [] wallet [] before_it after_it
      response response after_it one_row promoted []

-- The order of texts byte by byte.
text_lt-irreflexive : (a : Text) → text_lt a a ≡ false
unfolding text_lt
text_lt-irreflexive [] = refl
text_lt-irreflexive (x ∷ a) = ground (arith, text_lt-irreflexive a)

text_lt-transitive : (a b c : Text) → text_lt a b ≡ true → text_lt b c ≡ true → text_lt a c ≡ true
unfolding text_lt
text_lt-transitive [] b [] h k = ground arith
text_lt-transitive [] b (z ∷ c) h k = refl
text_lt-transitive (x ∷ a) [] c h k = cc
text_lt-transitive (x ∷ a) (y ∷ b) [] h k = cc
text_lt-transitive (x ∷ a) (y ∷ b) (z ∷ c) h k = ground (arith, text_lt-transitive a b c)

text_lt-total : (a b : Text) → text_eq a b ≡ false → text_lt a b ≡ false → text_lt b a ≡ true
unfolding text_lt
text_lt-total [] [] h k = cc
text_lt-total [] (y ∷ b) h k = cc
text_lt-total (x ∷ a) [] h k = refl
text_lt-total (x ∷ a) (y ∷ b) h k = ground (arith, text_lt-total a b)

abbrev versions : List EventSchema
versions =
    record (schema community none none) { version = 2 }
    ∷ record (schema community none none) { event_name = text "burn" }
    ∷ schema community none none
    ∷ []

latest_by_event-Latest_example :
    ((r : EventSchema) → In r (latest_by_event text_lt versions) → In r versions)
    × Ascending text_lt (latest_by_event text_lt versions)
    × ((r : EventSchema) → In r versions → Beaten r (latest_by_event text_lt versions))
latest_by_event-Latest_example =
    latest_by_event-Latest text_lt text_lt-irreflexive text_lt-transitive text_lt-total versions
