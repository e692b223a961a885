-- ===== src/Registry/Bundles/Summary.antt =====
-- internal/module/registry/service/bundle_group.go: what a bundle says of its schemas.
use naralabs_atlas.Prelude.{
  ℕ, ◌≤◌, ◌≡◌, refl, ◌⊎◌, inl, inr, ◌∙◌, sym, Bool, true, false, ◌||◌, ◌&&◌, not, Option, none,
  some, List, [], ◌∷◌, map, arith, Text, text, text_eq, All, is_empty, ltb, Bool-cases, trim_space,
  if◌then◌else◌,
}
use naralabs_atlas.Registry.Bundles.{
  EventSchema, SchemaBundle, author_of, absorb, absorb_all, community, finalize_bundle,
}

Among : ℕ → List ℕ → Type 0
Among m [] = ⊥
Among m (x ∷ xs) = (x ≡ m) ⊎ Among m xs

-- The greatest of the numbers: one of them, and no less than any of them.
pub Greatest : ℕ → List ℕ → Type 0
Greatest m xs = All (λ x. x ≤ m) xs × Among m xs

-- The tier of a batch
unfoldable pub any_verified : List EventSchema → Bool
any_verified [] = false
any_verified (s ∷ ss) = text_eq s.trust_tier (text "verified") || any_verified ss

author_text : Option Text → Text
author_text none = []
author_text (some a) = trim_space a

-- The first author that is not blank.
unfoldable pub first_author : List EventSchema → Text
unfolding author_text
first_author [] = []
first_author (s ∷ ss) =
    let rest = first_author ss in
    if is_empty (author_text s.author) then rest else author_text s.author

-- The running maximum, from the value so far.
peak : ℕ → List ℕ → ℕ
peak m [] = m
peak m (x ∷ xs) = peak (if ltb m x then x else m) xs

-- One step of it
module _ (m x : ℕ) where
  step_le : m ≤ (if ltb m x then x else m)
  step_le = ground arith

  step_covers : x ≤ (if ltb m x then x else m)
  step_covers = ground arith

  step_attained : ((if ltb m x then x else m) ≡ m) ⊎ (x ≡ (if ltb m x then x else m))
  step_attained = elim (Bool-cases (ltb m x)) [ inl e ↦ inr (rw e refl) | inr e ↦ inl (rw e refl) ]

peak_le : (m : ℕ) (xs : List ℕ) → m ≤ peak m xs
unfolding peak
peak_le m [] = omega arith
peak_le m (x ∷ xs) = omega (arith, peak_le (if ltb m x then x else m) xs, step_le m x)

peak_bounds : (m : ℕ) (xs : List ℕ) → All (λ x. x ≤ peak m xs) xs
unfolding peak
peak_bounds m [] = tt
peak_bounds m (x ∷ xs) =
    let next = if ltb m x then x else m in
    (omega (arith, peak_le next xs, step_covers m x), peak_bounds next xs)

peak_attained : (m : ℕ) (xs : List ℕ) → (peak m xs ≡ m) ⊎ Among (peak m xs) xs
unfolding peak Among
peak_attained m [] = inl refl
peak_attained m (x ∷ xs) = elim (peak_attained (if ltb m x then x else m) xs) [
  | inl h ↦ elim (step_attained m x) [ inl e ↦ inl (h ∙ e) | inr e ↦ inr (inl (e ∙ sym h)) ]
  | inr h ↦ inr (inr h)
]

peak-Greatest : (x : ℕ) (xs : List ℕ) → Greatest (peak 0 (x ∷ xs)) (x ∷ xs)
unfolding Greatest Among
peak-Greatest x xs =
    let bounds = peak_bounds 0 (x ∷ xs) in
    (
      bounds,
      elim (peak_attained 0 (x ∷ xs)) [ inl h ↦ inl (omega (arith, bounds.0, h)) | inr h ↦ h ],
    )

version-absorb_all :
    (b : SchemaBundle) (ss : List EventSchema)
    → (absorb_all b ss).version ≡ peak b.version (map (λ (s : EventSchema). s.version) ss)
unfolding absorb_all absorb peak
version-absorb_all b [] = refl
version-absorb_all b (s ∷ ss) = version-absorb_all (absorb b s) ss

updated-absorb_all :
    (b : SchemaBundle) (ss : List EventSchema)
    → (absorb_all b ss).updated_at ≡ peak b.updated_at (map (λ (s : EventSchema). s.updated_at) ss)
unfolding absorb_all absorb peak
updated-absorb_all b [] = refl
updated-absorb_all b (s ∷ ss) = updated-absorb_all (absorb b s) ss

tier_step :
    (t old : Text) (rest : Bool)
    → (if rest
        then text "verified"
        else if text_eq t (text "verified")
        then text "verified"
        else old)
      ≡ (if text_eq t (text "verified") || rest then text "verified" else old)
tier_step t old rest = ground arith

tier-absorb_all :
    (b : SchemaBundle) (ss : List EventSchema)
    → (absorb_all b ss).trust_tier ≡ (if any_verified ss then text "verified" else b.trust_tier)
unfolding absorb_all absorb any_verified
tier-absorb_all b [] = refl
tier-absorb_all b (s ∷ ss) =
    tier-absorb_all (absorb b s) ss ∙ tier_step s.trust_tier b.trust_tier (any_verified ss)

old_author :
    (named : Bool) (a old rest : Text)
    → is_empty old ≡ false
    → (if is_empty (if named && is_empty old then a else old)
        then rest
        else (if named && is_empty old then a else old))
      ≡ old
old_author true a old rest h = rw h (rw h refl)
old_author false a old rest h = rw h refl

author_step :
    (o : Option Text) (old rest : Text)
    → (if is_empty (author_of o old) then rest else author_of o old)
      ≡ (if is_empty old then (if is_empty (author_text o) then rest else author_text o) else old)
unfolding author_of author_text
author_step none [] rest = refl
author_step none (c ∷ cs) rest = refl
author_step (some a) [] rest = elim (Bool-cases (is_empty (trim_space a))) [
  | inl e ↦ rw e refl
  | inr e ↦ rw e (rw e refl)
]
author_step (some a) (c ∷ cs) rest =
    old_author (not (is_empty (trim_space a))) (trim_space a) (c ∷ cs) rest refl

no_author : (a : Text) → a ≡ (if is_empty a then [] else a)
no_author [] = refl
no_author (c ∷ cs) = refl

author-absorb_all :
    (b : SchemaBundle) (ss : List EventSchema)
    → (absorb_all b ss).author ≡ (if is_empty b.author then first_author ss else b.author)
unfolding absorb_all absorb first_author
author-absorb_all b [] = no_author b.author
author-absorb_all b (s ∷ ss) =
    author-absorb_all (absorb b s) ss ∙ author_step s.author b.author (first_author ss)

events-absorb_all : (b : SchemaBundle) (ss : List EventSchema) → (absorb_all b ss).events ≡ b.events
unfolding absorb_all absorb
events-absorb_all b [] = refl
events-absorb_all b (s ∷ ss) = events-absorb_all (absorb b s) ss

community_tier :
    (v : Bool) (t : Text)
    → t ≡ (if v then text "verified" else [])
    → (if is_empty t then text "community" else t)
      ≡ (if v then text "verified" else text "community")
community_tier true t h = rw h refl
community_tier false t h = rw h refl

-- A bundle of a batch that is not empty has the events of its batch. Its version is the greatest of theirs and its
-- update time the latest of theirs; its tier is "verified" if one of them is verified, and "community" if none is; and
-- its author is the first author among them that is not blank, or empty.
pub finalize_bundle-Greatest :
    (s : EventSchema) (ss : List EventSchema)
    → ((finalize_bundle (s ∷ ss)).events ≡ s ∷ ss)
      × Greatest (finalize_bundle (s ∷ ss)).version (map (λ (t : EventSchema). t.version) (s ∷ ss))
      × Greatest
          (finalize_bundle (s ∷ ss)).updated_at
          (map (λ (t : EventSchema). t.updated_at) (s ∷ ss))
      × ((finalize_bundle (s ∷ ss)).trust_tier
          ≡ (if any_verified (s ∷ ss) then text "verified" else text "community"))
      × ((finalize_bundle (s ∷ ss)).author ≡ first_author (s ∷ ss))
unfolding finalize_bundle community
finalize_bundle-Greatest s ss =
    let start : SchemaBundle = record {
      version = 0;
      trust_tier = [];
      author = [];
      created_at = 0;
      updated_at = 0;
      verified_at = none;
      events = s ∷ ss;
    } in
    (
      events-absorb_all start (s ∷ ss),
      rw (version-absorb_all start (s ∷ ss))
          (peak-Greatest s.version (map (λ (t : EventSchema). t.version) ss)),
      rw (updated-absorb_all start (s ∷ ss))
          (peak-Greatest s.updated_at (map (λ (t : EventSchema). t.updated_at) ss)),
      community_tier (any_verified (s ∷ ss)) (absorb_all start (s ∷ ss)).trust_tier
          (tier-absorb_all start (s ∷ ss)),
      author-absorb_all start (s ∷ ss),
    )
