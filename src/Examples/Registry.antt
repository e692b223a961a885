-- ===== src/Examples/Registry.antt =====
-- The registry: two schemas that were published together, and a later one.
use naralabs_atlas.Prelude.{
  ◌≡◌, ◌||◌, refl, ℕ, true, none, some, List, [], ◌∷◌, text, text_eq, concat, All, to_lower,
  trim_space, Bool, if◌then◌else◌, Text, Result, ok, length, ◌≤◌, ◌*◌, arith,
}
use naralabs_atlas.Registry.Validate.{allowed_network, resolve_network, resolve_network_allowed}
use mathlib.Core.List.Perm
use naralabs_atlas.Registry.Contracts.{
  pos, negsuc, ContractItem, RegistrySummary, put, group_from, item_of, build_contract_summaries,
  counts, summary_of, summary_from, summary_in, get_registry_summary, page_limit, page_of,
}
use naralabs_atlas.Registry.Contracts.Summary.{Counted, get_registry_summary-Counted}
use naralabs_atlas.Registry.Contracts.Pages.{pages, pages_whole}
use naralabs_atlas.Registry.Bundles.{
  is_published, contract_verification, verification_from, is_verified, later, EventSchema, batches,
  finalize_bundle,
}
use naralabs_atlas.Registry.Bundles.Batches.{IsBatch, batches-IsBatch}
use naralabs_atlas.Registry.Bundles.Summary.{
  Greatest, any_verified, first_author, finalize_bundle-Greatest,
}

abbrev schema : ℕ → ℕ → EventSchema
schema version created = record {
  contract_id = text "CA";
  network = text "testnet";
  status = text "published";
  event_name = text "Transfer";
  version = version;
  trust_tier = text "verified";
  author = none;
  publisher_user_id = some (text "u1");
  created_at = created;
  updated_at = created;
  verified_at = some created;
}

abbrev schemas : List EventSchema
schemas = schema 1 100 ∷ schema 2 200 ∷ schema 3 90_000_000_000 ∷ []

batches-IsBatch_example : (concat (batches schemas) ≡ schemas) × All IsBatch (batches schemas)
batches-IsBatch_example = batches-IsBatch schemas

finalize_bundle-Greatest_example :
    ((finalize_bundle schemas).events ≡ schemas)
    × Greatest (finalize_bundle schemas).version (1 ∷ 2 ∷ 3 ∷ [])
    × Greatest (finalize_bundle schemas).updated_at (100 ∷ 200 ∷ 90_000_000_000 ∷ [])
    × ((finalize_bundle schemas).trust_tier
        ≡ (if any_verified schemas then text "verified" else text "community"))
    × ((finalize_bundle schemas).author ≡ first_author schemas)
finalize_bundle-Greatest_example =
    finalize_bundle-Greatest (schema 1 100) (schema 2 200 ∷ schema 3 90_000_000_000 ∷ [])

resolve_network_allowed_example :
    (allowed_network (text "testnet") || text_eq (text "testnet") (text "testnet")) ≡ true
unfolding resolve_network to_lower trim_space
resolve_network_allowed_example = resolve_network_allowed (text "testnet") [] (text "testnet") refl

abbrev unsorted : (A : Type 0) → (A → A → Bool) → List A → List A
unsorted A before xs = xs

abbrev read_schemas : Text → Text → Result Text (List EventSchema)
read_schemas network search = ok schemas

abbrev registry_summary : RegistrySummary
registry_summary = record {
  network = text "testnet";
  published_contracts = 1;
  event_schemas = 3;
  verified_contracts = 1;
  community_contracts = 0;
}

testnet_summary :
    get_registry_summary unsorted read_schemas (text "testnet") [] ≡ ok registry_summary
unfolding get_registry_summary summary_in summary_from summary_of resolve_network to_lower
    trim_space build_contract_summaries group_from put item_of counts is_published
    contract_verification verification_from is_verified later
testnet_summary = refl

get_registry_summary-Counted_example : Counted schemas registry_summary
get_registry_summary-Counted_example =
    get_registry_summary-Counted unsorted (λ A before xs. Perm.refl xs) read_schemas
      (text "testnet") [] registry_summary testnet_summary schemas refl

abbrev item : ℕ → ContractItem
item n = record {
  contract_id = text "CA";
  network = text "testnet";
  schema_count = n;
  event_count = n;
  is_verified = true;
  verified_at = none;
  updated_at = n;
}

abbrev three_items : List ContractItem
three_items = item 3 ∷ item 2 ∷ item 1 ∷ []

two_pages : length three_items ≤ 2 * page_limit (pos 2)
unfolding page_limit
two_pages = omega arith

pages_whole_example :
    (pages (pos 2) 2 0 three_items ≡ three_items)
    × (length (page_of (pos 2) (negsuc 4) three_items).0 ≤ 100)
    × ((page_of (pos 2) (negsuc 4) three_items).1 ≡ length three_items)
pages_whole_example = pages_whole (pos 2) (negsuc 4) 2 three_items two_pages
