-- ===== src/Registry/Verify/Service.antt =====
-- internal/module/registry/service: VerifyService (verify_service.go) and ContractAuthorityService
-- (contract_authority_service.go).
use naralabs_atlas.Prelude.{
  ℕ, ◌+◌, ◌&&◌, ◌||◌, ◌==◌, Bool, false, not, Option, none, some, List, ◌∷◌, ◌++◌, map, Text, text,
  text_eq, is_empty, has_prefix, to_lower, trim_space, ltb, leb, length, if◌then◌else◌,
}
use naralabs_atlas.Database.{Query, pure, raise, ◌>>=◌, ◌>>◌, catch, of_option, now, random_text}
use naralabs_atlas.Registry.Validate.{normalize_contract_id, resolve_network}
use naralabs_atlas.Registry.Verify.{
  VerifyError, unauthorized, invalid_contract_id, invalid_network, invalid_schema_body,
  invalid_signature, challenge_not_found, authority_denied, authority_unavailable,
  nothing_to_verify, schema_not_found, other, Registry, key, EventSchema, Authority,
  get_by_id_for_user, create, consume, get_authority, upsert_authority,
}
use naralabs_atlas.Registry.Verify.Promote.{verify_contract_for_publisher}

-- What stellar.expert answers: no connection, or a status and the creator in the body (`none` where the body is not
-- such JSON).
pub data Answer : Type 0 where
  unreachable : Answer
  response : (status : ℕ) (creator : Option Text) → Answer

-- The outside: ParseUserID at a time, the collation of the database, the time as RFC 3339, base64, strkey, SHA-256,
-- Ed25519, and the default network.
pub record VerifyEnv : Type 0 where
  pub parse_user : ℕ → Text → Option Text
  pub before : Text → Text → Bool
  pub rfc3339 : ℕ → Text
  pub base64 : Text → Option Text
  pub account_key : Text → Option Text
  pub sha256 : Text → Text
  pub ed25519 : Text → Text → Text → Bool
  pub default_network : Text

pub record Promoted : Type 0 where
  pub event_name : Text
  pub schema_id : ℕ
  pub version : ℕ

-- VerifyContractResponse
pub record Verified : Type 0 where
  pub contract_id : Text
  pub network : Text
  pub wallet : Text
  pub verified_at : ℕ
  pub events : List Promoted

-- stellarExpertNetwork
pub stellar_expert_network : Text → Text
stellar_expert_network network =
    let n = to_lower (trim_space network) in
    if text_eq n (text "mainnet")
    then text "public"
    else if text_eq n (text "futurenet")
    then text "future"
    else text "testnet"

-- lookupDeployer behind the request
pub deployer_of : Answer → Option Text
deployer_of unreachable = none
deployer_of (response status none) = none
deployer_of (response status (some creator)) =
    let deployer = trim_space creator in
    if ltb status 200 || leb 300 status
    then none
    else if is_empty deployer || not (has_prefix deployer (text "G"))
    then none
    else some deployer

-- The request of a lookup: the URL that it asks for
pub expert_url : Text → Text → Text
unfolding stellar_expert_network
expert_url network contract =
    text "https://api.stellar.expert/explorer/"
    ++ stellar_expert_network network
    ++ text "/contract/"
    ++ contract

unfoldable pub known_deployer :
    (Text → Answer) → Text → Text → Option Authority → Query VerifyError Registry Text
unfolding deployer_of expert_url
known_deployer ask contract network (some a) = pure a.wallet
known_deployer ask contract network none = do
  deployer ← of_option authority_unavailable (deployer_of (ask (expert_url network contract)))
  upsert_authority contract network deployer
  pure deployer

-- ResolveDeployer; `ask` is the answer to a request.
unfoldable pub resolve_deployer : (Text → Answer) → Text → Text → Query VerifyError Registry Text
unfolding known_deployer
resolve_deployer ask contract network =
    get_authority contract network >>= known_deployer ask contract network

-- IsAuthorizedWallet, for ASCII
unfoldable pub is_authorized_wallet :
    (Text → Answer) → Text → Text → Text → Query VerifyError Registry Bool
unfolding resolve_deployer
is_authorized_wallet ask contract network wallet = do
  deployer ← resolve_deployer ask contract network
  pure (text_eq (to_lower deployer) (to_lower (trim_space wallet)))

module _ (env : VerifyEnv) where
  -- ed25519.Verify, behind the length of the key
  signature_ok : Text → Option Text → Option Text → Bool
  signature_ok message none key = false
  signature_ok message (some signature) none = false
  signature_ok message (some signature) (some key) =
      length key == 32
      && env.ed25519 key (env.sha256 (text "Stellar Signed Message:" ++ 10 ∷ message)) signature

  -- verifyStellarSignedMessage
  unfoldable pub verify_stellar_signed_message : Text → Text → Text → Bool
  unfolding signature_ok
  verify_stellar_signed_message wallet message signature =
      signature_ok message (env.base64 (trim_space signature)) (env.account_key wallet)

  -- The guards that CreateChallenge and VerifyContract begin with: the user, his project, the contract and the network.
  unfoldable pub enter : Text → Text → Text → Text → Query VerifyError Registry (Text × Text × Text)
  enter authorization project contract_input network_input = do
    t ← now
    user ← of_option unauthorized (env.parse_user t authorization)
    found ← get_by_id_for_user project user
    contract ← of_option invalid_contract_id (normalize_contract_id contract_input)
    network ← of_option invalid_network (resolve_network env.default_network network_input)
    pure (user, contract, network)

  pub challenge_message : Text → Text → Text → ℕ → Text
  challenge_message contract network nonce expires_at =
      text "NaraLabs Schema Registry Verify"
      ++ 10 ∷ text "Contract: "
      ++ contract
      ++ 10 ∷ text "Network: "
      ++ network
      ++ 10 ∷ text "Nonce: "
      ++ nonce
      ++ 10 ∷ text "Expires: "
      ++ env.rfc3339 expires_at

  -- CreateChallenge: the nonce, the message and its end; 10 minutes in nanoseconds.
  unfoldable pub create_challenge :
      Text → Text → Text → Text → Query VerifyError Registry (Text × Text × ℕ)
  unfolding enter challenge_message
  create_challenge authorization project contract_input network_input = do
    (user, contract, network) ← enter authorization project contract_input network_input
    nonce ← random_text (λ e. other (text "uuid: ") e)
    t ← now
    let expires_at = t + 600000000000
    let message = challenge_message contract network nonce expires_at
    create (key project user contract network nonce) message expires_at
    pure (nonce, message, expires_at)

  unfoldable pub require : VerifyError → Bool → Query VerifyError Registry (Unit {0})
  require e b = if b then pure tt else raise e

  unfoldable pub nothing_as : VerifyError → VerifyError
  nothing_as schema_not_found = nothing_to_verify
  nothing_as e = e

  pub events_of : List EventSchema → List Promoted
  events_of = map (λ s. record { event_name = s.event_name; schema_id = s.id; version = s.version })

  -- VerifyContract behind the challenge
  unfoldable pub verify_signed :
      (Text → Answer)
      → Text
      → Text
      → Text
      → Text
      → Text
      → ℕ
      → Text
      → Query VerifyError Registry Verified
  unfolding verify_stellar_signed_message require nothing_as events_of
  verify_signed ask user contract network wallet signature at message = do
    require invalid_signature (verify_stellar_signed_message wallet message signature)
    authorized ← is_authorized_wallet ask contract network wallet
    require authority_denied authorized
    promoted ←
        catch (verify_contract_for_publisher env.before user contract network wallet at)
          (λ e. raise (nothing_as e))
    pure (record {
      contract_id = contract;
      network = network;
      wallet = wallet;
      verified_at = at;
      events = events_of promoted;
    })

  -- VerifyContract, with the nonce trimmed
  unfoldable pub verify_contract :
      (Text → Answer)
      → Text
      → Text
      → Text
      → Text
      → Text
      → Text
      → Text
      → Query VerifyError Registry Verified
  unfolding enter require verify_signed
  verify_contract ask authorization project contract_input network_input wallet_input nonce_input
        signature =
      do
        (user, contract, network) ← enter authorization project contract_input network_input
        let wallet = trim_space wallet_input
        let nonce = trim_space nonce_input
        require invalid_schema_body (not (is_empty wallet) && has_prefix wallet (text "G"))
        require challenge_not_found (not (is_empty nonce))
        t ← now
        message ← consume (key project user contract network nonce) t
        verify_signed ask user contract network wallet signature t message
