-- ===== src/Registry/Verify/Calls.antt =====
-- Calls of the services in internal/module/registry (verify_service.go), and what they keep of the tables.
use naralabs_atlas.Prelude.{
  ℕ, ◌+◌, Bool, true, false, not, ◌&&◌, Option, none, some, List, [], ◌∷◌, Text, text, is_empty,
  has_prefix, trim_space, Result, ok, err,
}
use naralabs_atlas.Database.{Db}
use naralabs_atlas.Database.Keeps.{
  Keeps, bind-Keeps, catch-Keeps, of_option-Keeps, if-Keeps, statement-Keeps, select-Keeps,
  random_text-Keeps, transaction-Keeps, pure-Keeps, raise-Keeps, now-Keeps,
}
use naralabs_atlas.Registry.Validate.{normalize_contract_id, resolve_network}
use naralabs_atlas.Registry.Verify.{
  VerifyError, unauthorized, project_not_found, invalid_contract_id, invalid_network,
  invalid_schema_body, invalid_signature, challenge_not_found, authority_denied,
  authority_unavailable, schema_not_found, other, Registry, Key, key, EventSchema, Authority, first,
  has_key, insert_challenge, use_challenge, why_not, consumed, get_by_id_for_user, create, consume,
  get_authority, upsert_authority,
}
use naralabs_atlas.Registry.Verify.Promote.{
  promoted_row, promote_rows, archive_rows, promote, of_promoted, promote_all, promote_some,
  verify_contract_for_publisher,
}
use naralabs_atlas.Registry.Verify.Service.{
  VerifyEnv, Answer, known_deployer, resolve_deployer, is_authorized_wallet,
  verify_stellar_signed_message, enter, challenge_message, create_challenge, require, verify_signed,
  nothing_as, verify_contract, deployer_of, expert_url,
}
use naralabs_atlas.Registry.Verify.Nonces.{Spent, insert-Spent, use-Spent}

-- The methods keep what the two statements on the challenges keep, and what no other table matters to.
pub record Stable (P : Registry → Type 0) : Type 0 where
  pub used : (k : Key) (at : ℕ) (t : Registry) → P t → P (use_challenge k at t).1
  inserted :
      (k : Key) (message : Text) (expires_at : ℕ) (t : Registry)
      → P t
      → P (insert_challenge k message expires_at t).1
  pub schemas : (rows : List EventSchema) (t : Registry) → P t → P (record t { schemas = rows })
  pub authorities :
      (rows : List Authority) (t : Registry) → P t → P (record t { authorities = rows })

pub Spent-Stable : (n : Text) → Stable (Spent n)
unfolding Spent
Spent-Stable n = record {
  used = λ k at t h. use-Spent k at n t h;
  inserted = insert-Spent n;
  schemas = λ rows t h. h;
  authorities = λ rows t h. h;
}

module _ (env : VerifyEnv) (P : Registry → Type 0) where
  project-Keeps : (project user : Text) → Keeps P (get_by_id_for_user project user)
  unfolding get_by_id_for_user
  project-Keeps project user =
      bind-Keeps P _ _ (select-Keeps P _ _) (λ found. of_option-Keeps P project_not_found found)

  pub enter-Keeps :
      (authorization project contract network : Text)
      → Keeps P (enter env authorization project contract network)
  unfolding enter
  enter-Keeps authorization project contract_input network_input =
      bind-Keeps P _ _ (now-Keeps VerifyError P) (λ t.
        bind-Keeps P _ _ (of_option-Keeps P unauthorized (env.parse_user t authorization)) (λ user.
          bind-Keeps P _ _ (project-Keeps project user) (λ found.
            bind-Keeps P _ _
              (of_option-Keeps P invalid_contract_id (normalize_contract_id contract_input))
              (λ contract.
                bind-Keeps P _ _
                  (of_option-Keeps P invalid_network
                    (resolve_network env.default_network network_input))
                  (λ network. pure-Keeps VerifyError P (user, contract, network))))))

  pub require-Keeps : (e : VerifyError) (b : Bool) → Keeps P (require env e b)
  unfolding require
  require-Keeps e b = if-Keeps P b _ _ (pure-Keeps VerifyError P tt) (raise-Keeps P _ e)

module _ (P : Registry → Type 0) (stable : Stable P) where
  promoted_row-Keeps :
      (taken : Bool) (found : Option EventSchema) (t t' : Registry)
      → P t
      → P t'
      → P (promoted_row taken found t t').1
  unfolding promoted_row
  promoted_row-Keeps taken none t t' h h' = h
  promoted_row-Keeps true (some s) t t' h h' = h
  promoted_row-Keeps false (some s) t t' h h' = h'

  promoted-Keeps :
      (user wallet : Text) (at : ℕ) (target : EventSchema) (t : Registry)
      → P t
      → P (promote user wallet at target t).1
  unfolding promote
  promoted-Keeps user wallet at target t h =
      promoted_row-Keeps _ _ t _ h
        (stable.schemas (promote_rows user wallet at target.id t.schemas).1 t h)

  of_promoted-Keeps : (r : Result Text EventSchema) → Keeps P (of_promoted r)
  unfolding of_promoted
  of_promoted-Keeps (ok s) = pure-Keeps VerifyError P s
  of_promoted-Keeps (err e) = raise-Keeps P _ (other (text "promote schema to verified: ") e)

  promote_all-Keeps :
      (user contract network wallet : Text) (at : ℕ) (targets : List EventSchema)
      → Keeps P (promote_all user contract network wallet at targets)
  unfolding promote_all
  promote_all-Keeps user contract network wallet at [] = pure-Keeps VerifyError P []
  promote_all-Keeps user contract network wallet at (target ∷ rest) =
      bind-Keeps P _ _
        (statement-Keeps P _ _
          (λ t h. stable.schemas (archive_rows contract network target.event_name t.schemas) t h))
        (λ u.
          bind-Keeps P _ _ (statement-Keeps P _ _ (promoted-Keeps user wallet at target)) (λ row.
            bind-Keeps P _ _ (of_promoted-Keeps row) (λ schema.
              bind-Keeps P _ _ (promote_all-Keeps user contract network wallet at rest)
                (λ schemas. pure-Keeps VerifyError P (schema ∷ schemas)))))

  promote_some-Keeps :
      (user contract network wallet : Text) (at : ℕ) (targets : List EventSchema)
      → Keeps P (promote_some user contract network wallet at targets)
  unfolding promote_some
  promote_some-Keeps user contract network wallet at [] = raise-Keeps P _ schema_not_found
  promote_some-Keeps user contract network wallet at (target ∷ rest) =
      promote_all-Keeps user contract network wallet at (target ∷ rest)

  verify_contract_for_publisher-Keeps :
      (before : Text → Text → Bool) (user contract network wallet : Text) (at : ℕ)
      → Keeps P (verify_contract_for_publisher before user contract network wallet at)
  unfolding verify_contract_for_publisher
  verify_contract_for_publisher-Keeps before user contract network wallet at =
      transaction-Keeps P _ _ _ (
        bind-Keeps P _ _ (select-Keeps P _ _)
          (λ targets. promote_some-Keeps user contract network wallet at targets))

  known_deployer-Keeps :
      (ask : Text → Answer) (contract network : Text) (a : Option Authority)
      → Keeps P (known_deployer ask contract network a)
  unfolding known_deployer upsert_authority
  known_deployer-Keeps ask contract network (some a) = pure-Keeps VerifyError P a.wallet
  known_deployer-Keeps ask contract network none =
      bind-Keeps P _ _
        (of_option-Keeps P authority_unavailable (deployer_of (ask (expert_url network contract))))
        (λ deployer.
          bind-Keeps P _ _ (statement-Keeps P _ _ (λ t h. stable.authorities _ t h))
            (λ u. pure-Keeps VerifyError P deployer))

  is_authorized_wallet-Keeps :
      (ask : Text → Answer) (contract network wallet : Text)
      → Keeps P (is_authorized_wallet ask contract network wallet)
  unfolding is_authorized_wallet resolve_deployer get_authority
  is_authorized_wallet-Keeps ask contract network wallet =
      bind-Keeps P _ _
        (bind-Keeps P _ _ (select-Keeps P _ _) (known_deployer-Keeps ask contract network))
        (λ deployer. pure-Keeps VerifyError P _)

  consumed-Keeps : (k : Key) (at : ℕ) (found : Option Text) → Keeps P (consumed k at found)
  unfolding consumed
  consumed-Keeps k at none =
      bind-Keeps P _ _
        (select-Keeps P (λ e. other (text "lookup verify challenge: ") e)
          (λ t. first (has_key k) t.challenges))
        (λ row. raise-Keeps P _ (why_not at row))
  consumed-Keeps k at (some message) = pure-Keeps VerifyError P message

  consume-Keeps : (k : Key) (at : ℕ) → Keeps P (consume k at)
  unfolding consume
  consume-Keeps k at =
      bind-Keeps P _ _ (statement-Keeps P _ _ (stable.used k at)) (consumed-Keeps k at)

  pub verify_signed-Keeps :
      (env : VerifyEnv) (ask : Text → Answer) (user contract network wallet signature : Text)
      (at : ℕ) (message : Text)
      → Keeps P (verify_signed env ask user contract network wallet signature at message)
  unfolding verify_signed
  verify_signed-Keeps env ask user contract network wallet signature at message =
      bind-Keeps P _ _
        (require-Keeps env P invalid_signature
          (verify_stellar_signed_message env wallet message signature))
        (λ u.
          bind-Keeps P _ _ (is_authorized_wallet-Keeps ask contract network wallet) (λ authorized.
            bind-Keeps P _ _ (require-Keeps env P authority_denied authorized) (λ u.
              bind-Keeps P _ _
                (catch-Keeps P _ _
                  (verify_contract_for_publisher-Keeps env.before user contract network wallet at)
                  (λ e. raise-Keeps P _ (nothing_as env e)))
                (λ promoted. pure-Keeps VerifyError P _))))

  create-Keeps : (k : Key) (message : Text) (expires_at : ℕ) → Keeps P (create k message expires_at)
  unfolding create
  create-Keeps k message expires_at =
      bind-Keeps P _ _ (statement-Keeps P _ _ (stable.inserted k message expires_at))
        (λ o. of_option-Keeps P _ o)

  create_challenge-Keeps :
      (env : VerifyEnv) (authorization project contract network : Text)
      → Keeps P (create_challenge env authorization project contract network)
  unfolding create_challenge
  create_challenge-Keeps env authorization project contract_input network_input =
      bind-Keeps P _ _ (enter-Keeps env P authorization project contract_input network_input)
        (λ who. bind-Keeps P _ _ (random_text-Keeps P (λ e. other (text "uuid: ") e)) (λ nonce.
          bind-Keeps P _ _ (now-Keeps VerifyError P) (λ t.
            let message = challenge_message env who.1 who.2 nonce (t + 600000000000) in
            bind-Keeps P _ _
              (create-Keeps (key project who.0 who.1 who.2 nonce) message (t + 600000000000))
              (λ u. pure-Keeps VerifyError P (nonce, message, t + 600000000000)))))

  verify_contract-Keeps :
      (env : VerifyEnv) (ask : Text → Answer)
      (authorization project contract network wallet nonce signature : Text)
      → Keeps P
          (verify_contract env ask authorization project contract network wallet nonce signature)
  unfolding verify_contract
  verify_contract-Keeps env ask authorization project contract_input network_input wallet_input
        nonce_input signature =
      bind-Keeps P _ _ (enter-Keeps env P authorization project contract_input network_input)
        (λ who.
          bind-Keeps P _ _
            (require-Keeps env P invalid_schema_body (
              not (is_empty (trim_space wallet_input))
              && has_prefix (trim_space wallet_input) (text "G")))
            (λ u.
              bind-Keeps P _ _
                (require-Keeps env P challenge_not_found (not (is_empty (trim_space nonce_input))))
                (λ u. bind-Keeps P _ _ (now-Keeps VerifyError P) (λ t.
                  bind-Keeps P _ _
                    (consume-Keeps (key project who.0 who.1 who.2 (trim_space nonce_input)) t)
                    (λ message.
                      verify_signed-Keeps env ask who.0 who.1 who.2 (trim_space wallet_input)
                        signature t message)))))

-- A call that a publisher makes; `ask` is what stellar.expert would answer.
pub data Call : Type 0 where
  challenges : (authorization project contract network : Text) → Call
  verifies :
      (ask : Text → Answer) (authorization project contract network wallet nonce signature : Text)
      → Call

unfoldable pub run : VerifyEnv → Call → Db Registry → Db Registry
run env (challenges authorization project contract network) db =
    (create_challenge env authorization project contract network db).1
run env (verifies ask authorization project contract network wallet nonce signature) db =
    (verify_contract env ask authorization project contract network wallet nonce signature db).1

unfoldable pub run_all : VerifyEnv → List Call → Db Registry → Db Registry
unfolding run
run_all env [] db = db
run_all env (c ∷ cs) db = run_all env cs (run env c db)

pub run_all-Keeps :
    (env : VerifyEnv) (P : Registry → Type 0)
    → Stable P
    → (calls : List Call) (db : Db Registry) → P db.tables
    → P (run_all env calls db).tables
unfolding run_all run Keeps
run_all-Keeps env P stable [] db h = h
run_all-Keeps env P stable (challenges authorization project contract network ∷ cs) db h =
    run_all-Keeps env P stable cs _
      (create_challenge-Keeps P stable env authorization project contract network db h)
run_all-Keeps env P stable
      (verifies ask authorization project contract network wallet nonce signature ∷ cs) db h =
    run_all-Keeps env P stable cs _ (
      verify_contract-Keeps P stable env ask authorization project contract network wallet nonce
        signature db h)
