-- ===== src/Config.antt =====
-- config/config.go: ParseStartLedger, and the lists of the watched contracts and the RPC servers.
pub mod Lists
use naralabs_atlas.Prelude.{
  ℕ, ◌-◌, ◌+◌, ◌≤◌, ◌<◌, ◌≡◌, Bool, true, false, ◌||◌, not, Option, none, some, List, [], ◌∷◌, ◌++◌,
  map, arith, Text, text, text_eq, has_prefix, to_lower, trim_space, trim_prefix, parse_uint32,
  parse_uint32-lt, is_empty, split_comma, keep, leb, if◌then◌else◌,
}

-- The branch of "latest-<offset>".
from_latest : ℕ → Option ℕ → Option ℕ
from_latest latest none = none
from_latest latest (some offset) = if leb latest offset then some 1 else some (latest - offset)

-- ParseStartLedger; an error is `none`.
pub parse_start_ledger : Text → ℕ → Option ℕ
unfolding from_latest
parse_start_ledger raw latest =
    let s = trim_space raw in
    if is_empty s
    then some 0
    else if has_prefix (to_lower s) (text "latest-")
    then from_latest latest (parse_uint32 (trim_prefix (to_lower s) (text "latest-")))
    else parse_uint32 s

non_empty : Text → Bool
non_empty v = not (is_empty v)

-- parseCSV, and WatchedContractIDs of the text of WATCHED_CONTRACTS; nil is `[]`.
pub parse_csv : Text → List Text
unfolding non_empty
parse_csv raw =
    if is_empty (trim_space raw) then [] else keep non_empty (map trim_space (split_comma raw []))

-- _, ok := seen[s]
pub seen_in : Text → List Text → Bool
seen_in s [] = false
seen_in s (t ∷ ts) = text_eq t s || seen_in s ts

-- dedupeStrings, with `seen` for the map.
dedupe_from : List Text → List Text → List Text
dedupe_from seen [] = []
dedupe_from seen (s ∷ ss) =
    let rest = dedupe_from (if seen_in s seen then seen else s ∷ seen) ss in
    if seen_in s seen then rest else s ∷ rest

pub dedupe_strings : List Text → List Text
dedupe_strings ss = dedupe_from [] ss

-- RPCURLs
pub rpc_urls : Text → Text → List Text
rpc_urls url fallbacks =
    dedupe_strings (trim_space url ∷ keep non_empty (map trim_space (split_comma fallbacks [])))

-- A start ledger that is accepted is a uint32, for a latest ledger that is one.
pub parse_start_ledger-lt :
    (raw : Text) (latest n : ℕ)
    → latest < 4294967296
    → parse_start_ledger raw latest ≡ some n
    → n < 4294967296
unfolding parse_start_ledger
parse_start_ledger-lt raw latest n l h = ground (arith, parse_uint32-lt (trim_space raw) n)
