-- ===== src/Registry/Contracts/Summary.antt =====
-- The counts of GetRegistrySummary (internal/module/registry/service/schema_bundle_service.go).
use naralabs_atlas.Prelude.{
  ℕ, suc, ◌≡◌, refl, ◌+◌, ◌≤◌, Bool, true, false, List, [], ◌∷◌, ◌++◌, map, Text, Result, ok, err,
  length, keep, length-append, length-map, sym, ◌||◌, Bool-cases, inl, inr, ap, subst, ◌∙◌, arith,
  if◌then◌else◌, Option, none, some,
}
use mathlib.Core.Logic.{∥∥₁_elim}
use mathlib.Core.List.{Perm, Permᴰ}
use naralabs_atlas.Registry.Validate.{resolve_network}
use naralabs_atlas.Registry.Bundles.{
  EventSchema, is_published, is_verified, verification_from, contract_verification,
}
use naralabs_atlas.Registry.Contracts.Tally.{
  any, tally, contracts, length-group_from, tally-contracts,
}
use naralabs_atlas.Registry.Contracts.{
  ContractItem, RegistrySummary, Group, put, group_from, item_of, build_contract_summaries, counts,
  summary_of, summary_from, summary_in, get_registry_summary,
}

-- What a summary says of the schemas.
unfoldable pub Counted : List EventSchema → RegistrySummary → Type 0
Counted schemas summary =
    (summary.event_schemas ≡ length (keep is_published schemas))
    × (summary.published_contracts ≡ contracts (keep is_published schemas))
    × (summary.verified_contracts ≡ contracts (keep is_verified (keep is_published schemas)))
    × (summary.verified_contracts + summary.community_contracts ≡ summary.published_contracts)

none_before : (n : ℕ) → 0 + n ≡ n
none_before n = omega arith

members : List Group → ℕ
members [] = 0
members (g ∷ gs) = length g.schemas + members gs

put-members_if :
    (b : Bool) (g : Group) (gs : List Group) (s : EventSchema) (rest : List Group)
    → members rest ≡ suc (members gs)
    → members (if b then record g { schemas = g.schemas ++ s ∷ [] } ∷ gs else g ∷ rest)
      ≡ suc (members (g ∷ gs))
unfolding members
put-members_if true g gs s rest h = omega (arith, length-append g.schemas (s ∷ []))
put-members_if false g gs s rest h = omega arith

put-members : (s : EventSchema) (gs : List Group) → members (put s gs) ≡ suc (members gs)
unfolding put members
put-members s [] = omega arith
put-members s (g ∷ gs) = put-members_if _ g gs s (put s gs) (put-members s gs)

-- No published schema is lost or grouped twice.
group_from-members :
    (gs : List Group) (ss : List EventSchema)
    → members (group_from gs ss) ≡ members gs + length (keep is_published ss)
unfolding group_from
group_from-members gs [] = omega arith
group_from-members gs (s ∷ ss) = elim (Bool-cases (is_published s)) [
  | inl e ↦ rw e (omega (arith, group_from-members (put s gs) ss, put-members s gs))
  | inr e ↦ rw e (omega (arith, group_from-members gs ss))
]

or_assoc : (a b c : Bool) → ((a || b) || c) ≡ (a || (b || c))
or_assoc a b c = ground arith

add_if : (b : Bool) (m n : ℕ) → m ≡ n → (if b then 1 else 0) + m ≡ (if b then suc n else n)
add_if true m n h = omega arith
add_if false m n h = omega arith

total : (ContractItem → ℕ) → List ContractItem → ℕ
total f [] = 0
total f (i ∷ is) = f i + total f is

one_if_verified : ContractItem → ℕ
one_if_verified i = if i.is_verified then 1 else 0

Permᴰ-total :
    (f : ContractItem → ℕ) {is js : List ContractItem} → Permᴰ is js → total f is ≡ total f js
unfolding total
Permᴰ-total f Permᴰ.nil = refl
Permᴰ-total f (Permᴰ.cons e p) = cc (ap f e, Permᴰ-total f p)
Permᴰ-total f (Permᴰ.swap {l = l} e e') = omega (arith, ap f e, ap f e')
Permᴰ-total f (Permᴰ.trans p q) = Permᴰ-total f p ∙ Permᴰ-total f q

Perm-total :
    (f : ContractItem → ℕ) {is js : List ContractItem} → Perm is js → total f is ≡ total f js
Perm-total f p = ∥∥₁_elim p (hlevel) (Permᴰ-total f)

total-length : (is : List ContractItem) → total (λ i. 1) is ≡ length is
unfolding total
total-length [] = refl
total-length (i ∷ is) = omega (arith, total-length is)

counts-events :
    (n v : ℕ) (is : List ContractItem) → (counts n v is).0 ≡ n + total (λ i. i.event_count) is
unfolding counts total
counts-events n v [] = omega arith
counts-events n v (i ∷ is) =
    omega (arith, counts-events (n + i.event_count) (if i.is_verified then v + 1 else v) is)

counts-verified :
    (n v : ℕ) (is : List ContractItem) → (counts n v is).1 ≡ v + total one_if_verified is
unfolding counts total one_if_verified
counts-verified n v [] = omega arith
counts-verified n v (i ∷ is) = elim (Bool-cases i.is_verified) [
  | inl e ↦ rw e (omega (arith, counts-verified (n + i.event_count) (v + 1) is))
  | inr e ↦ rw e (omega (arith, counts-verified (n + i.event_count) v is))
]

verified_le_length : (is : List ContractItem) → total one_if_verified is ≤ length is
unfolding total one_if_verified
verified_le_length [] = omega arith
verified_le_length (i ∷ is) = elim (Bool-cases i.is_verified) [
  | inl e ↦ rw e (omega (arith, verified_le_length is))
  | inr e ↦ rw e (omega (arith, verified_le_length is))
]

-- contractVerification finds a verified schema if there is one.
verification_from-any :
    (v : Bool) (at : Option ℕ) (ss : List EventSchema)
    → (verification_from v at ss).0 ≡ (v || any is_verified ss)
unfolding verification_from any
verification_from-any v at [] = ground arith
verification_from-any v at (s ∷ ss) =
    verification_from-any (v || is_verified s) _ ss
    ∙ or_assoc v (is_verified s) (any is_verified ss)

module _ (sort : (A : Type 0) → (A → A → Bool) → List A → List A) where
  events-item_of :
      (gs : List Group) → total (λ i. i.event_count) (map (item_of sort) gs) ≡ members gs
  unfolding total members item_of
  events-item_of [] = refl
  events-item_of (g ∷ gs) = ap (λ n. length g.schemas + n) (events-item_of gs)

  verified-item_of :
      (gs : List Group) → total one_if_verified (map (item_of sort) gs) ≡ tally is_verified gs
  unfolding total one_if_verified item_of tally contract_verification
  verified-item_of [] = refl
  verified-item_of (g ∷ gs) =
      rw (verification_from-any false none g.schemas)
        (add_if (any is_verified g.schemas) _ _ (verified-item_of gs))

module _ (sort : (A : Type 0) → (A → A → Bool) → List A → List A)
    (perm : (A : Type 0) (before : A → A → Bool) (xs : List A) → Perm (sort A before xs) xs) where
  total-build_contract_summaries :
      (f : ContractItem → ℕ) (ss : List EventSchema)
      → total f (build_contract_summaries sort ss) ≡ total f (map (item_of sort) (group_from [] ss))
  unfolding build_contract_summaries
  total-build_contract_summaries f ss =
      Perm-total f (perm _ _ (map (item_of sort) (group_from [] ss)))

  events-build_contract_summaries :
      (ss : List EventSchema)
      → total (λ i. i.event_count) (build_contract_summaries sort ss)
        ≡ length (keep is_published ss)
  unfolding members
  events-build_contract_summaries ss =
      total-build_contract_summaries (λ i. i.event_count) ss
      ∙ events-item_of sort (group_from [] ss)
      ∙ group_from-members [] ss
      ∙ none_before (length (keep is_published ss))

  length-build_contract_summaries :
      (ss : List EventSchema)
      → length (build_contract_summaries sort ss) ≡ contracts (keep is_published ss)
  length-build_contract_summaries ss =
      let items = map (item_of sort) (group_from [] ss) in
      sym (total-length (build_contract_summaries sort ss))
      ∙ total-build_contract_summaries (λ i. 1) ss
      ∙ total-length items
      ∙ length-map (group_from [] ss) (item_of sort)
      ∙ length-group_from ss

  verified-build_contract_summaries :
      (ss : List EventSchema)
      → total one_if_verified (build_contract_summaries sort ss)
        ≡ contracts (keep is_verified (keep is_published ss))
  verified-build_contract_summaries ss =
      total-build_contract_summaries one_if_verified ss
      ∙ verified-item_of sort (group_from [] ss)
      ∙ tally-contracts is_verified ss

  summary_of-Counted :
      (n : Text) (ss : List EventSchema)
      → Counted ss (summary_of n (build_contract_summaries sort ss))
  unfolding summary_of Counted
  summary_of-Counted n ss =
      let items = build_contract_summaries sort ss in
      (
        counts-events 0 0 items
            ∙ none_before (total (λ i. i.event_count) items)
            ∙ events-build_contract_summaries ss,
        length-build_contract_summaries ss,
        counts-verified 0 0 items
            ∙ none_before (total one_if_verified items)
            ∙ verified-build_contract_summaries ss,
        omega (arith, counts-verified 0 0 items, verified_le_length items),
      )

  module _ (list_published_by_network : Text → Text → Result Text (List EventSchema))
      (summary : RegistrySummary) where
    summary_from-Counted :
        (n : Text) (r : Result Text (List EventSchema))
        → list_published_by_network n [] ≡ r
        → summary_from sort list_published_by_network n r ≡ ok summary
        → (schemas : List EventSchema) → list_published_by_network summary.network [] ≡ ok schemas
        → Counted schemas summary
    unfolding summary_from summary_of
    summary_from-Counted n (err e) q h schemas l = cc
    summary_from-Counted n (ok ss) q h schemas l =
        let e : summary_of n (build_contract_summaries sort ss) ≡ summary = cc in
        let same : n ≡ summary.network = ap (λ (s : RegistrySummary). s.network) e in
        let read : list_published_by_network n [] ≡ ok schemas = rw same l in
        let found : ss ≡ schemas = cc in
        subst (λ ss. Counted ss summary) found (subst (Counted ss) e (summary_of-Counted n ss))

    summary_in-Counted :
        (o : Option Text)
        → summary_in sort list_published_by_network o ≡ ok summary
        → (schemas : List EventSchema) → list_published_by_network summary.network [] ≡ ok schemas
        → Counted schemas summary
    unfolding summary_in
    summary_in-Counted none h schemas l = cc
    summary_in-Counted (some n) h schemas l =
        summary_from-Counted n (list_published_by_network n []) refl h schemas l

-- When sort.Slice permutes what it sorts, GetRegistrySummary counts every published schema that the repository
-- returned once; as published contracts, the contracts of these schemas; as verified contracts, the contracts of those
-- of them that are verified; and as community contracts, the others.
pub get_registry_summary-Counted :
    (sort : (A : Type 0) → (A → A → Bool) → List A → List A)
    → ((A : Type 0) (before : A → A → Bool) (xs : List A) → Perm (sort A before xs) xs)
    → (list_published_by_network : Text → Text → Result Text (List EventSchema))
      (default network : Text) (summary : RegistrySummary)
    → get_registry_summary sort list_published_by_network default network ≡ ok summary
    → (schemas : List EventSchema) → list_published_by_network summary.network [] ≡ ok schemas
    → Counted schemas summary
unfolding get_registry_summary
get_registry_summary-Counted sort perm list_published_by_network default network summary =
    summary_in-Counted sort perm list_published_by_network summary (resolve_network default network)
