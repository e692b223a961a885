-- ===== src/Registry/Contracts.antt =====
-- internal/module/registry/service/schema_bundle_service.go: ListContracts and GetRegistrySummary.
pub mod Tally
pub mod Summary
pub mod Pages
use naralabs_atlas.Prelude.{
  ℕ, zero, suc, ◌+◌, ◌-◌, ◌&&◌, Bool, Option, none, some, List, [], ◌∷◌, ◌++◌, map, Text, text_eq,
  Result, ok, err, ltb, leb, length, take, drop, if◌then◌else◌,
}
use naralabs_atlas.Registry.Validate.{resolve_network}
use naralabs_atlas.Registry.Bundles.{
  EventSchema, is_published, group_into_bundles, contract_verification,
}

-- The int of a request.
pub data ℤ : Type 0 where
  pos : ℕ → ℤ
  negsuc : ℕ → ℤ

-- model.SchemaContractListItem
pub record ContractItem : Type 0 where
  pub contract_id : Text
  pub network : Text
  pub schema_count : ℕ
  pub event_count : ℕ
  pub is_verified : Bool
  pub verified_at : Option ℕ
  pub updated_at : ℕ

-- model.SchemaRegistrySummary
pub record RegistrySummary : Type 0 where
  pub network : Text
  pub published_contracts : ℕ
  pub event_schemas : ℕ
  pub verified_contracts : ℕ
  pub community_contracts : ℕ

-- An entry of `grouped`; the list of them has the order of `order`.
pub record Group : Type 0 where
  pub contract_id : Text
  pub network : Text
  pub schemas : List EventSchema

-- contractKey{...} == key
same_key : Group → EventSchema → Bool
same_key g s = text_eq g.contract_id s.contract_id && text_eq g.network s.network

-- grouped[key] = append(grouped[key], schema), after the test that appends a new key to `order`.
unfoldable pub put : EventSchema → List Group → List Group
unfolding same_key
put s [] = record { contract_id = s.contract_id; network = s.network; schemas = s ∷ [] } ∷ []
put s (g ∷ gs) =
    let rest = put s gs in
    if same_key g s then record g { schemas = g.schemas ++ s ∷ [] } ∷ gs else g ∷ rest

-- The first loop of buildContractSummaries, from the groups so far.
unfoldable pub group_from : List Group → List EventSchema → List Group
unfolding put is_published
group_from gs [] = gs
group_from gs (s ∷ ss) = group_from (if is_published s then put s gs else gs) ss

-- The loop for updatedAt, from the value so far.
latest_update : ℕ → List EventSchema → ℕ
latest_update updated_at [] = updated_at
latest_update updated_at (s ∷ ss) =
    latest_update (if ltb updated_at s.updated_at then s.updated_at else updated_at) ss

-- items[i].UpdatedAt.After(items[j].UpdatedAt)
updated_after : ContractItem → ContractItem → Bool
updated_after a b = ltb b.updated_at a.updated_at

-- `sort` is sort.Slice, which leaves the order of equal elements open.
module _ (sort : (A : Type 0) → (A → A → Bool) → List A → List A) where
  -- The body of the second loop.
  unfoldable pub item_of : Group → ContractItem
  unfolding latest_update
  item_of g = record {
    contract_id = g.contract_id;
    network = g.network;
    schema_count = length (group_into_bundles sort g.schemas);
    event_count = length g.schemas;
    is_verified = (contract_verification g.schemas).0;
    verified_at = (contract_verification g.schemas).1;
    updated_at = latest_update 0 g.schemas;
  }

  -- buildContractSummaries
  unfoldable pub build_contract_summaries : List EventSchema → List ContractItem
  unfolding group_from item_of updated_after
  build_contract_summaries schemas =
      sort ContractItem updated_after (map item_of (group_from [] schemas))

-- The limit and the offset that ListContracts goes on with.
unfoldable pub page_limit : ℤ → ℕ
page_limit (pos zero) = 20
page_limit (pos (suc n)) = if ltb 100 (suc n) then 100 else suc n
page_limit (negsuc n) = 20

unfoldable pub page_offset : ℤ → ℕ
page_offset (pos n) = n
page_offset (negsuc n) = 0

-- summaries[offset:end]
unfoldable pub page : ℕ → ℕ → List ContractItem → List ContractItem
page limit offset summaries =
    let total = length summaries in
    if leb total offset
    then []
    else take ((if ltb total (offset + limit) then total else offset + limit) - offset)
        (drop offset summaries)

unfoldable pub page_of : ℤ → ℤ → List ContractItem → List ContractItem × ℕ
unfolding page page_limit page_offset
page_of limit offset summaries =
    (page (page_limit limit) (page_offset offset) summaries, length summaries)

-- The loop of GetRegistrySummary: eventSchemas and verifiedContracts.
unfoldable pub counts : ℕ → ℕ → List ContractItem → ℕ × ℕ
counts events verified [] = (events, verified)
counts events verified (i ∷ is) =
    counts (events + i.event_count) (if i.is_verified then verified + 1 else verified) is

-- What GetRegistrySummary makes of the summaries.
unfoldable pub summary_of : Text → List ContractItem → RegistrySummary
unfolding counts
summary_of network items =
    let (events, verified) = counts 0 0 items in
    record {
      network = network;
      published_contracts = length items;
      event_schemas = events;
      verified_contracts = verified;
      community_contracts = length items - verified;
    }

module _ (sort : (A : Type 0) → (A → A → Bool) → List A → List A)
    (list_published_by_network : Text → Text → Result Text (List EventSchema)) where
  -- ErrInvalidNetwork is `none`.
  list_in : Option Text → Text → ℤ → ℤ → Result (Option Text) (List ContractItem × ℕ)
  unfolding page_of build_contract_summaries
  list_in none search limit offset = err none
  list_in (some network) search limit offset = list_from (list_published_by_network network search)
    where
      list_from : Result Text (List EventSchema) → Result (Option Text) (List ContractItem × ℕ)
      list_from (err e) = err (some e)
      list_from (ok schemas) = ok (page_of limit offset (build_contract_summaries sort schemas))

  -- ListContracts: the items and the total
  pub list_contracts : Text → Text → Text → ℤ → ℤ → Result (Option Text) (List ContractItem × ℕ)
  unfolding list_in
  list_contracts default network = list_in (resolve_network default network)

  unfoldable pub summary_from :
      Text → Result Text (List EventSchema) → Result (Option Text) RegistrySummary
  unfolding summary_of build_contract_summaries
  summary_from network (err e) = err (some e)
  summary_from network (ok schemas) =
      ok (summary_of network (build_contract_summaries sort schemas))

  unfoldable pub summary_in : Option Text → Result (Option Text) RegistrySummary
  unfolding summary_from
  summary_in none = err none
  summary_in (some network) = summary_from network (list_published_by_network network [])

  -- GetRegistrySummary
  unfoldable pub get_registry_summary : Text → Text → Result (Option Text) RegistrySummary
  unfolding summary_in
  get_registry_summary default network = summary_in (resolve_network default network)
