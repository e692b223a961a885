-- ===== src/Registry/Validate.antt =====
-- internal/module/registry/service/validate.go, the names that requests carry, and resolveNetwork of
-- schema_bundle_service.go. The checks of the JSON bodies are left out. `none` is an error.
use naralabs_atlas.Prelude.{
  ◌≡◌, ◌||◌, Bool, true, not, Option, none, some, Text, text, text_eq, text_eq_refl, is_empty,
  has_prefix, to_lower, trim_space, ltb, length, if◌then◌else◌, arith,
}

-- _, ok := allowedNetworks[n]
pub allowed_network : Text → Bool
allowed_network n =
    text_eq n (text "testnet") || text_eq n (text "mainnet") || text_eq n (text "futurenet")

-- normalizeNetwork
pub normalize_network : Text → Option Text
normalize_network network =
    let n = to_lower (trim_space network) in
    if is_empty n then none else if not (allowed_network n) then none else some n

-- normalizeContractID
unfoldable pub normalize_contract_id : Text → Option Text
normalize_contract_id contract_id =
    let id = trim_space contract_id in
    if is_empty id || not (has_prefix id (text "C")) || ltb (length id) 10 then none else some id

-- normalizeEventName
pub normalize_event_name : Text → Option Text
normalize_event_name name = let n = trim_space name in if is_empty n then none else some n

-- resolveNetwork, with the service's default network
unfoldable pub resolve_network : Text → Text → Option Text
resolve_network default network =
    let n = to_lower (trim_space network) in
    if is_empty n then (if is_empty default then none else some default) else normalize_network n

normalize_network_allowed :
    (network n : Text) → normalize_network network ≡ some n → allowed_network n ≡ true
unfolding normalize_network
normalize_network_allowed network n h = ground arith

-- A network that resolveNetwork accepts is one of the three that are allowed, or the default, which no rule
-- checks.
pub resolve_network_allowed :
    (default network n : Text)
    → resolve_network default network ≡ some n
    → (allowed_network n || text_eq n default) ≡ true
unfolding resolve_network
resolve_network_allowed default network n h =
    ground
      (arith, text_eq_refl default, normalize_network_allowed (to_lower (trim_space network)) n)
