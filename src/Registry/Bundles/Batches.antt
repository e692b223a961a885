-- ===== src/Registry/Bundles/Batches.antt =====
-- internal/module/registry/service/bundle_group.go: how the published schemas are cut into batches.
use naralabs_atlas.Prelude.{
  ℕ, ◌≡◌, ◌≤◌, ◌+◌, refl, ap, ◌∙◌, false, List, [], ◌∷◌, ◌++◌, arith, Text, text_eq_sound,
  append_assoc, concat, All, Bool-cases, inl, inr,
}
use naralabs_atlas.Registry.Bundles.{
  EventSchema, publish_batch_window, publisher_key, starts_batch, cut, batches,
}

concat-cut :
    (current : List EventSchema) (anchor : ℕ) (publisher : Text) (ss : List EventSchema)
    → concat (cut current anchor publisher ss) ≡ current ++ ss
unfolding cut
concat-cut current anchor publisher [] = refl
concat-cut current anchor publisher (s ∷ ss) = elim (Bool-cases (starts_batch anchor publisher s)) [
  | inl fresh ↦ rw (fresh) (
      ap (λ r. current ++ r)
        (concat-cut (s ∷ []) s.created_at (publisher_key s.publisher_user_id) ss))
  | inr same ↦
      rw (same)
        (concat-cut (current ++ s ∷ []) anchor publisher ss ∙ append_assoc current (s ∷ []) ss)
]

-- A batch: the first schema, and others of the same publisher that were created at most the batch window
-- (30 seconds) after it.
abbrev pub IsBatch : List EventSchema → Type 0
IsBatch [] = ⊥
IsBatch (s ∷ ss) =
    All
      (λ t.
        (publisher_key t.publisher_user_id ≡ publisher_key s.publisher_user_id)
        × (t.created_at ≤ s.created_at + publish_batch_window))
      ss

All-snoc :
    {A : Type 0} (P : A → Type 0) (xs : List A) (x : A) → All P xs → P x → All P (xs ++ x ∷ [])
All-snoc P [] x h p = (p, tt)
All-snoc P (y ∷ ys) x h p = (h.0, All-snoc P ys x h.1 p)

continues_batch :
    (first s : EventSchema)
    → starts_batch first.created_at (publisher_key first.publisher_user_id) s ≡ false
    → (publisher_key s.publisher_user_id ≡ publisher_key first.publisher_user_id)
      × (s.created_at ≤ first.created_at + publish_batch_window)
unfolding starts_batch
continues_batch first s h = (
  text_eq_sound (publisher_key s.publisher_user_id) (publisher_key first.publisher_user_id)
      (ground arith),
  ground arith,
)

cut-IsBatch :
    (first : EventSchema) (current ss : List EventSchema)
    → IsBatch (first ∷ current)
    → All IsBatch
        (cut (first ∷ current) first.created_at (publisher_key first.publisher_user_id) ss)
unfolding cut
cut-IsBatch first current [] h = (h, tt)
cut-IsBatch first current (s ∷ ss) h =
    elim (Bool-cases (starts_batch first.created_at (publisher_key first.publisher_user_id) s)) [
      | inl fresh ↦ rw (fresh) (h, cut-IsBatch s [] ss tt)
      | inr same ↦ rw (same) (
          cut-IsBatch first (current ++ s ∷ []) ss (
            All-snoc
              (λ t.
                (publisher_key t.publisher_user_id ≡ publisher_key first.publisher_user_id)
                × (t.created_at ≤ first.created_at + publish_batch_window))
              current s h (continues_batch first s same)))
    ]

-- The batches in order hold just the schemas, in their order. Each has a schema, and all of its schemas have the
-- publisher of the first one and were created at most 30 seconds after it.
pub batches-IsBatch :
    (ss : List EventSchema) → (concat (batches ss) ≡ ss) × All IsBatch (batches ss)
unfolding batches
batches-IsBatch [] = (refl, tt)
batches-IsBatch (s ∷ ss) = (
  concat-cut (s ∷ []) s.created_at (publisher_key s.publisher_user_id) ss,
  cut-IsBatch s [] ss tt,
)
