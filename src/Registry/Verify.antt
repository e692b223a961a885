-- ===== src/Registry/Verify.antt =====
-- internal/module/registry: how a publisher proves that a contract is his. The tables, repository/
-- verify_challenge_repository.go, contract_authority_repository.go and the statements of schema_repository.go and
-- schema_project_repository.go that VerifyService calls.
pub mod Promote
pub mod Latest
pub mod Service
pub mod Nonces
pub mod Calls
pub mod Once
use naralabs_atlas.Prelude.{
  ℕ, ◌+◌, ◌&&◌, Bool, true, false, not, Option, none, some, List, [], ◌∷◌, ◌++◌, Text, text,
  text_eq, is_empty, ltb, Result, ok, err, keep, ◌==◌, if◌then◌else◌,
}
use naralabs_atlas.Database.{
  Query, pure, raise, ◌>>=◌, ◌>>◌, catch, of_option, statement, select, update, transaction,
}

-- The errors that the program tells apart, of repositories and services
pub data VerifyError : Type 0 where
  unauthorized project_not_found invalid_contract_id invalid_network invalid_schema_body
        invalid_signature :
      VerifyError
  challenge_not_found challenge_expired challenge_used : VerifyError
  authority_denied authority_unavailable nothing_to_verify schema_not_found : VerifyError
  other : Text → Text → VerifyError

pub record Project : Type 0 where
  pub id : Text
  pub user_id : Text
  pub archived : Bool

-- A row of verify_challenges
pub record Challenge : Type 0 where
  pub project_id : Text
  pub user_id : Text
  pub contract_id : Text
  pub network : Text
  pub nonce : Text
  pub message : Text
  pub expires_at : ℕ
  pub used_at : Option ℕ

pub data TrustTier : Type 0 where
  community verified : TrustTier

pub data Status : Type 0 where
  draft published archived : Status

-- EventSchema, without the body, the author and the times of creation and update
pub record EventSchema : Type 0 where
  pub id : ℕ
  pub contract_id : Text
  pub network : Text
  pub event_name : Text
  pub version : ℕ
  pub publisher_user_id : Option Text
  pub trust_tier : TrustTier
  pub status : Status
  pub verified_wallet : Option Text
  pub verified_at : Option ℕ

-- A row of contract_authorities
pub record Authority : Type 0 where
  pub contract_id : Text
  pub network : Text
  pub wallet : Text

pub record Registry : Type 0 where
  pub projects : List Project
  pub challenges : List Challenge
  pub schemas : List EventSchema
  pub authorities : List Authority

abbrev pub wrap : Text → Text → VerifyError
wrap message e = other message e

-- The first row that a test accepts.
unfoldable pub first : {A : Type 0} → (A → Bool) → List A → Option A
first p [] = none
first p (x ∷ xs) = if p x then some x else first p xs

abbrev is_project_of : Text → Text → Project → Bool
is_project_of project user p = text_eq p.id project && (text_eq p.user_id user && not p.archived)

-- GetByIDForUser: whether there is such a project.
unfoldable pub get_by_id_for_user : Text → Text → Query VerifyError Registry Project
unfolding first
get_by_id_for_user project user = do
  found ← select (wrap []) (λ t. first (is_project_of project user) t.projects)
  of_option project_not_found found

-- What a challenge is for, and its nonce
pub record Key : Type 0 where
  pub project_id : Text
  pub user_id : Text
  pub contract_id : Text
  pub network : Text
  pub nonce : Text

abbrev pub key : Text → Text → Text → Text → Text → Key
key project user contract network nonce = record {
  project_id = project;
  user_id = user;
  contract_id = contract;
  network = network;
  nonce = nonce;
}

abbrev pub has_key : Key → Challenge → Bool
has_key k c =
    text_eq c.project_id k.project_id
    && (text_eq c.user_id k.user_id
        && (text_eq c.contract_id k.contract_id
            && (text_eq c.network k.network && text_eq c.nonce k.nonce)))

abbrev pub is_none : {A : Type 0} → Option A → Bool
is_none none = true
is_none (some a) = false

abbrev pub has_nonce : Text → Challenge → Bool
has_nonce nonce c = text_eq c.nonce nonce

-- nonce has the constraint UNIQUE.
unfoldable pub insert_challenge : Key → Text → ℕ → Registry → Option (Unit {0}) × Registry
unfolding first
insert_challenge k message expires_at t =
    let row : Challenge = record {
      project_id = k.project_id;
      user_id = k.user_id;
      contract_id = k.contract_id;
      network = k.network;
      nonce = k.nonce;
      message = message;
      expires_at = expires_at;
      used_at = none;
    } in
    if is_none (first (has_nonce k.nonce) t.challenges)
    then (some tt, record t { challenges = t.challenges ++ row ∷ [] })
    else (none, t)

-- Create
unfoldable pub create : Key → Text → ℕ → Query VerifyError Registry (Unit {0})
unfolding insert_challenge
create k message expires_at = do
  inserted ←
      statement (wrap (text "insert verify challenge: ")) (insert_challenge k message expires_at)
  of_option (wrap (text "insert verify challenge: ") (text "23505")) inserted

-- used_at IS NULL AND expires_at > $6, and the key
abbrev pub is_usable : Key → ℕ → Challenge → Bool
is_usable k now c = has_key k c && (is_none c.used_at && ltb now c.expires_at)

-- The UPDATE of Consume; a key has one row at most, as its nonce is unique.
unfoldable pub use_rows : Key → ℕ → List Challenge → Option Text × List Challenge
use_rows k now [] = (none, [])
use_rows k now (c ∷ cs) =
    let (found, rest) = use_rows k now cs in
    if is_usable k now c
    then (some c.message, record c { used_at = some now } ∷ rest)
    else (found, c ∷ rest)

unfoldable pub use_challenge : Key → ℕ → Registry → Option Text × Registry
unfolding use_rows
use_challenge k now t =
    let (found, rows) = use_rows k now t.challenges in (found, record t { challenges = rows })

unfoldable pub why_not : ℕ → Option Challenge → VerifyError
why_not now none = challenge_not_found
why_not now (some c) =
    if not (is_none c.used_at)
    then challenge_used
    else if not (ltb now c.expires_at)
    then challenge_expired
    else challenge_not_found

unfoldable pub consumed : Key → ℕ → Option Text → Query VerifyError Registry Text
unfolding first why_not
consumed k now (some message) = pure message
consumed k now none = do
  row ← select (wrap (text "lookup verify challenge: ")) (λ t. first (has_key k) t.challenges)
  raise (why_not now row)

-- Consume
unfoldable pub consume : Key → ℕ → Query VerifyError Registry Text
unfolding use_challenge consumed
consume k now =
    statement (wrap (text "consume verify challenge: ")) (use_challenge k now) >>= consumed k now

abbrev is_for : Text → Text → Authority → Bool
is_for contract network a = text_eq a.contract_id contract && text_eq a.network network

-- Get
unfoldable pub get_authority : Text → Text → Query VerifyError Registry (Option Authority)
unfolding first
get_authority contract network =
    select (wrap (text "get contract authority: "))
      (λ t. first (is_for contract network) t.authorities)

unfoldable pub put_authority : Text → Text → Text → List Authority → List Authority
put_authority contract network wallet [] =
    record { contract_id = contract; network = network; wallet = wallet } ∷ []
put_authority contract network wallet (a ∷ rest) =
    let others = put_authority contract network wallet rest in
    if is_for contract network a then record a { wallet = wallet } ∷ rest else a ∷ others

-- Upsert
unfoldable pub upsert_authority : Text → Text → Text → Query VerifyError Registry (Unit {0})
unfolding put_authority
upsert_authority contract network wallet =
    update (wrap (text "upsert contract authority: "))
      (λ t. record t { authorities = put_authority contract network wallet t.authorities })
