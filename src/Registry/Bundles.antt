-- ===== src/Registry/Bundles.antt =====
-- internal/module/registry/service/bundle_group.go. Times are nanoseconds since year 1, so that the zero time is 0.
pub mod Batches
pub mod Summary
use naralabs_atlas.Prelude.{
  ℕ, ◌-◌, ◌&&◌, ◌||◌, Bool, true, false, not, Option, none, some, List, [], ◌∷◌, ◌++◌, map, Text,
  text, text_eq, is_empty, trim_space, ltb, ◌==◌, length, keep, if◌then◌else◌,
}

-- model.EventSchema, the fields that are read; versions are not negative.
pub record EventSchema : Type 0 where
  pub contract_id : Text
  pub network : Text
  pub status : Text
  pub event_name : Text
  pub version : ℕ
  pub trust_tier : Text
  pub author : Option Text
  pub publisher_user_id : Option Text
  pub created_at : ℕ
  pub updated_at : ℕ
  pub verified_at : Option ℕ

pub record SchemaBundle : Type 0 where
  pub version : ℕ
  pub trust_tier : Text
  pub author : Text
  pub created_at : ℕ
  pub updated_at : ℕ
  pub verified_at : Option ℕ
  pub events : List EventSchema

-- publishBatchWindow
abbrev pub publish_batch_window : ℕ
publish_batch_window = 30_000_000_000

-- publisherKey
pub publisher_key : Option Text → Text
publisher_key none = []
publisher_key (some id) = trim_space id

-- a < b on strings
unfoldable pub text_lt : Text → Text → Bool
text_lt [] [] = false
text_lt [] (b ∷ bs) = true
text_lt (a ∷ as') [] = false
text_lt (a ∷ as') (b ∷ bs) = ltb a b || (a == b && text_lt as' bs)

-- The order of the first sort.
created_before : EventSchema → EventSchema → Bool
unfolding text_lt
created_before s t =
    if s.created_at == t.created_at
    then text_lt s.event_name t.event_name
    else ltb s.created_at t.created_at

-- nextPublisher != publisher || schema.CreatedAt.Sub(anchor) > publishBatchWindow
starts_batch : ℕ → Text → EventSchema → Bool
starts_batch anchor publisher s =
    not (text_eq (publisher_key s.publisher_user_id) publisher)
    || ltb publish_batch_window (s.created_at - anchor)

-- The loop over published[1:].
pub cut : List EventSchema → ℕ → Text → List EventSchema → List (List EventSchema)
unfolding starts_batch
cut current anchor publisher [] = current ∷ []
cut current anchor publisher (s ∷ ss) =
    let fresh = starts_batch anchor publisher s in
    let rest =
      cut (if fresh then s ∷ [] else current ++ s ∷ []) (if fresh then s.created_at else anchor)
        (if fresh then publisher_key s.publisher_user_id else publisher) ss in
    if fresh then current ∷ rest else rest

-- The batches of the sorted schemas.
pub batches : List EventSchema → List (List EventSchema)
unfolding cut
batches [] = []
batches (s ∷ ss) = cut (s ∷ []) s.created_at (publisher_key s.publisher_user_id) ss

-- The later time; `none` is nil.
unfoldable pub later : Option ℕ → Option ℕ → Option ℕ
later old none = old
later none (some t) = some t
later (some v) (some t) = if ltb v t then some t else some v

author_of : Option Text → Text → Text
author_of none old = old
author_of (some a) old = if not (is_empty (trim_space a)) && is_empty old then trim_space a else old

-- The body of the loop of finalizeBundle.
pub absorb : SchemaBundle → EventSchema → SchemaBundle
unfolding later author_of
absorb b s = record {
  version = if ltb b.version s.version then s.version else b.version;
  trust_tier = if text_eq s.trust_tier (text "verified") then text "verified" else b.trust_tier;
  author = author_of s.author b.author;
  created_at =
      if b.created_at == 0 || ltb s.created_at b.created_at then s.created_at else b.created_at;
  updated_at = if ltb b.updated_at s.updated_at then s.updated_at else b.updated_at;
  verified_at =
      if text_eq s.trust_tier (text "verified")
      then later b.verified_at s.verified_at
      else b.verified_at;
  events = b.events;
}

pub absorb_all : SchemaBundle → List EventSchema → SchemaBundle
unfolding absorb
absorb_all b [] = b
absorb_all b (s ∷ ss) = absorb_all (absorb b s) ss

community : SchemaBundle → SchemaBundle
community b = record b {
  trust_tier = if is_empty b.trust_tier then text "community" else b.trust_tier;
}

-- finalizeBundle
pub finalize_bundle : List EventSchema → SchemaBundle
unfolding absorb_all community
finalize_bundle batch = community (
    absorb_all
      (record {
        version = 0;
        trust_tier = [];
        author = [];
        created_at = 0;
        updated_at = 0;
        verified_at = none;
        events = batch;
      })
      batch)

bundle_before : SchemaBundle → SchemaBundle → Bool
bundle_before a b =
    if a.version == b.version then ltb b.updated_at a.updated_at else ltb b.version a.version

-- schema.Status == "published"
unfoldable pub is_published : EventSchema → Bool
is_published s = text_eq s.status (text "published")

-- groupIntoBundles; `sort` is sort.Slice, which leaves the order of equal elements open.
pub group_into_bundles :
    ((A : Type 0) → (A → A → Bool) → List A → List A) → List EventSchema → List SchemaBundle
unfolding batches finalize_bundle is_published created_before bundle_before
group_into_bundles sort schemas =
    sort SchemaBundle bundle_before
      (map finalize_bundle (batches (sort EventSchema created_before (keep is_published schemas))))

unfoldable pub is_verified : EventSchema → Bool
unfolding is_published
is_verified s = is_published s && text_eq s.trust_tier (text "verified")

-- contractVerification, from the values so far
unfoldable pub verification_from : Bool → Option ℕ → List EventSchema → Bool × Option ℕ
unfolding is_verified later
verification_from verified at [] = (verified, at)
verification_from verified at (s ∷ ss) =
    verification_from (verified || is_verified s)
      (if is_verified s then later at s.verified_at else at) ss

unfoldable pub contract_verification : List EventSchema → Bool × Option ℕ
unfolding verification_from
contract_verification schemas = verification_from false none schemas

pub record BundleSummary : Type 0 where
  pub version : ℕ
  pub trust_tier : Text
  pub event_count : ℕ
  pub author : Text
  pub updated_at : ℕ
  pub verified_at : Option ℕ

-- toBundleSummary
pub to_bundle_summary : SchemaBundle → BundleSummary
to_bundle_summary b = record {
  version = b.version;
  trust_tier = b.trust_tier;
  event_count = length b.events;
  author = b.author;
  updated_at = b.updated_at;
  verified_at = b.verified_at;
}

-- toBundleSummaries
pub to_bundle_summaries : List SchemaBundle → List BundleSummary
to_bundle_summaries bundles = map to_bundle_summary bundles

-- findBundleByVersion
pub find_bundle_by_version : List SchemaBundle → ℕ → Option SchemaBundle
find_bundle_by_version [] version = none
find_bundle_by_version (b ∷ bs) version =
    if b.version == version then some b else find_bundle_by_version bs version
