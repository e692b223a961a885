-- ===== src/Stellar/Batches.antt =====
-- internal/client/stellar/resilient_client.go: BuildFilterBatches and ParseContractIDs; buildEventFilters
-- of stellar_rpc_client.go.
use naralabs_atlas.Prelude.{
  split_comma, is_empty, ℕ, ◌≤◌, ◌<◌, ◌≡◌, refl, List, [], ◌∷◌, map, arith, length, All, chunks,
  concat, concat-chunks, sizes-chunks, ltb, if◌then◌else◌, Text, trim_space, keep, not,
}

-- The batch size that is used; a negative one is 0 here.
abbrev effective_size : ℕ → ℕ
effective_size n = if ltb 0 n then n else 25

-- BuildFilterBatches; the one batch without filter is `[]`.
unfoldable pub build_filter_batches : List Text → ℕ → List (List Text)
build_filter_batches [] n = [] ∷ []
build_filter_batches (c ∷ cs) n = chunks (effective_size n) (c ∷ cs)

-- rpc.EventFilter of the SDK, with the contract type that both branches ask for left out.
pub record EventFilter : Type 0 where
  pub contract_ids : List Text

-- buildEventFilters
unfoldable pub build_event_filters : List Text → List EventFilter
build_event_filters [] = record { contract_ids = [] } ∷ []
build_event_filters (c ∷ cs) = map (λ id. record { contract_ids = id ∷ [] }) (c ∷ cs)

-- ParseContractIDs; nil is `[]`.
unfoldable pub parse_contract_ids : Text → List Text
parse_contract_ids raw =
    if is_empty (trim_space raw)
    then []
    else keep (λ v. not (is_empty v)) (map trim_space (split_comma raw []))

-- The filter batches, one behind the other, are the watched contracts in their order.
pub concat-build_filter_batches :
    (ids : List Text) (n : ℕ) → concat (build_filter_batches ids n) ≡ ids
unfolding build_filter_batches
concat-build_filter_batches [] n = refl
concat-build_filter_batches (c ∷ cs) n = concat-chunks (effective_size n) (c ∷ cs) (ground arith)

-- For a watch list that is not empty: each batch has a contract, and at most `n` of them (25 for n = 0).
pub sizes-build_filter_batches :
    (ids : List Text) (n : ℕ)
    → 0 < length ids
    → All
        (λ b. (0 < length b) × (length b ≤ (if ltb 0 n then n else 25)))
        (build_filter_batches ids n)
unfolding build_filter_batches
sizes-build_filter_batches [] n h = absurd (omega arith)
sizes-build_filter_batches (c ∷ cs) n h = sizes-chunks (effective_size n) (c ∷ cs) (ground arith)
