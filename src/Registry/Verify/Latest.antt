-- ===== src/Registry/Verify/Latest.antt =====
-- internal/module/registry/repository/schema_repository.go: which schemas VerifyContractForPublisher promotes.
use naralabs_atlas.Prelude.{
  ◌≤◌, ◌≡◌, refl, sym, subst, ◌∙◌, ◌⊎◌, inl, inr, Bool, true, false, List, [], ◌∷◌, All, Text,
  text_eq, text_eq_sound, ltb, ltb→lt, ltb→le, Bool-cases, if◌then◌else◌, arith,
}
use naralabs_atlas.Registry.Verify.{EventSchema}
use naralabs_atlas.Registry.Verify.Promote.{place, latest_by_event}

-- The row is in the list.
pub In : EventSchema → List EventSchema → Type 0
In s [] = ⊥
In s (t ∷ ts) = (t ≡ s) ⊎ In s ts

-- A row of the same event, of a version that is not lower, is in the list.
pub Beaten : EventSchema → List EventSchema → Type 0
Beaten s [] = ⊥
Beaten s (t ∷ ts) = ((t.event_name ≡ s.event_name) × (s.version ≤ t.version)) ⊎ Beaten s ts

placed-In :
    (same newer first : Bool) (r s t : EventSchema) (ts rest : List EventSchema)
    → In r (
        if same then (if newer then s ∷ ts else t ∷ ts) else if first then s ∷ t ∷ ts else t ∷ rest)
    → (In r rest → (s ≡ r) ⊎ In r ts)
    → (s ≡ r) ⊎ In r (t ∷ ts)
unfolding In
placed-In true true first r s t ts rest (inl e) k = inl e
placed-In true true first r s t ts rest (inr h) k = inr (inr h)
placed-In true false first r s t ts rest h k = inr h
placed-In false newer true r s t ts rest h k = h
placed-In false newer false r s t ts rest (inl e) k = inr (inl e)
placed-In false newer false r s t ts rest (inr h) k = elim (k h) [
  | inl e ↦ inl e
  | inr j ↦ inr (inr j)
]

placed-All :
    (P : EventSchema → Type 0) (same newer first : Bool) (s t : EventSchema)
    (ts rest : List EventSchema)
    → P s
    → P t
    → All P ts
    → All P rest
    → All P (
        if same then (if newer then s ∷ ts else t ∷ ts) else if first then s ∷ t ∷ ts else t ∷ rest)
placed-All P true true first s t ts rest p q h k = (p, h)
placed-All P true false first s t ts rest p q h k = (q, h)
placed-All P false newer true s t ts rest p q h k = (p, (q, h))
placed-All P false newer false s t ts rest p q h k = (q, k)

true≢false : true ≡ false → ⊥
true≢false h = cc

module _ (before : Text → Text → Bool) where
  place-Beaten_self : (s : EventSchema) (ts : List EventSchema) → Beaten s (place before s ts)
  unfolding place Beaten
  place-Beaten_self s [] = inl (refl, omega arith)
  place-Beaten_self s (t ∷ ts) = elim (Bool-cases (text_eq s.event_name t.event_name)) [
    | inl e ↦ elim (Bool-cases (ltb t.version s.version)) [
      | inl l ↦ rw (e, l) (inl (refl, omega arith))
      | inr l ↦
          rw (e, l)
            (inl (sym (text_eq_sound s.event_name t.event_name e), ltb→le t.version s.version l))
    ]
    | inr e ↦ elim (Bool-cases (before s.event_name t.event_name)) [
      | inl l ↦ rw (e, l) (inl (refl, omega arith))
      | inr l ↦ rw (e, l) (inr (place-Beaten_self s ts))
    ]
  ]

  place-Beaten :
      (r s : EventSchema) (ts : List EventSchema) → Beaten r ts → Beaten r (place before s ts)
  unfolding place Beaten
  place-Beaten r s [] h = absurd h
  place-Beaten r s (t ∷ ts) h = elim (Bool-cases (text_eq s.event_name t.event_name)) [
    | inl e ↦ elim (Bool-cases (ltb t.version s.version)) [
      | inl l ↦
          rw (e, l)
            (elim h [
              | inl (n, v) ↦ inl (
                text_eq_sound s.event_name t.event_name e ∙ n,
                omega (arith, v, ltb→lt t.version s.version l),
              )
              | inr k ↦ inr k
            ])
      | inr l ↦ rw (e, l) h
    ]
    | inr e ↦ elim (Bool-cases (before s.event_name t.event_name)) [
      | inl l ↦ rw (e, l) (inr h)
      | inr l ↦ rw (e, l) (elim h [ inl k ↦ inl k | inr k ↦ inr (place-Beaten r s ts k) ])
    ]
  ]

  place-In :
      (r s : EventSchema) (ts : List EventSchema) → In r (place before s ts) → (s ≡ r) ⊎ In r ts
  unfolding place In
  place-In r s [] h = h
  place-In r s (t ∷ ts) h =
      placed-In (text_eq s.event_name t.event_name) (ltb t.version s.version)
        (before s.event_name t.event_name) r s t ts _ h (place-In r s ts)

  latest-Beaten :
      (rows : List EventSchema) (r : EventSchema)
      → In r rows
      → Beaten r (latest_by_event before rows)
  unfolding latest_by_event In
  latest-Beaten [] r h = absurd h
  latest-Beaten (s ∷ ss) r (inl e) =
      subst (λ x. Beaten x (place before s (latest_by_event before ss))) e
        (place-Beaten_self s (latest_by_event before ss))
  latest-Beaten (s ∷ ss) r (inr h) =
      place-Beaten r s (latest_by_event before ss) (latest-Beaten ss r h)

  latest-In :
      (rows : List EventSchema) (r : EventSchema) → In r (latest_by_event before rows) → In r rows
  unfolding latest_by_event In
  latest-In [] r h = h
  latest-In (s ∷ ss) r h = elim (place-In r s (latest_by_event before ss) h) [
    | inl e ↦ inl e
    | inr k ↦ inr (latest-In ss r k)
  ]

  -- The name of the first row is before those of the others, and so on: no two rows have one event.
  pub Ascending : List EventSchema → Type 0
  Ascending [] = Unit
  Ascending (s ∷ ss) =
      All
        (λ t.
          (before s.event_name t.event_name ≡ true) × (text_eq s.event_name t.event_name ≡ false))
        ss
      × Ascending ss

  place-All :
      (P : EventSchema → Type 0) (s : EventSchema) (ts : List EventSchema)
      → P s
      → All P ts
      → All P (place before s ts)
  unfolding place
  place-All P s [] p h = (p, tt)
  place-All P s (t ∷ ts) p (q, h) =
      placed-All P (text_eq s.event_name t.event_name) (ltb t.version s.version)
        (before s.event_name t.event_name) s t ts _ p q h (place-All P s ts p h)

  module _ (irreflexive : (a : Text) → before a a ≡ false)
      (transitive : (a b c : Text) → before a b ≡ true → before b c ≡ true → before a c ≡ true)
      (total : (a b : Text) → text_eq a b ≡ false → before a b ≡ false → before b a ≡ true) where
    apart : (a b : Text) → before a b ≡ true → text_eq a b ≡ false
    apart a b h = elim (Bool-cases (text_eq a b)) [
      | inl e ↦
          let same = text_eq_sound a b e in
          let k : before a a ≡ true = subst (λ c. before a c ≡ true) (sym same) h in
          absurd (true≢false (sym k ∙ irreflexive a))
      | inr e ↦ e
    ]

    Before : EventSchema → EventSchema → Type 0
    Before s t =
        (before s.event_name t.event_name ≡ true) × (text_eq s.event_name t.event_name ≡ false)

    before-Before : (s t : EventSchema) → before s.event_name t.event_name ≡ true → Before s t
    unfolding Before
    before-Before s t h = (h, apart s.event_name t.event_name h)

    Before-weaken :
        (s t : EventSchema) (ts : List EventSchema)
        → before s.event_name t.event_name ≡ true
        → All (Before t) ts
        → All (Before s) ts
    unfolding Before
    Before-weaken s t [] h a = tt
    Before-weaken s t (u ∷ ts) h (b, a) = (
      before-Before s u (transitive s.event_name t.event_name u.event_name h b.0),
      Before-weaken s t ts h a,
    )

    place-Ascending :
        (s : EventSchema) (ts : List EventSchema) → Ascending ts → Ascending (place before s ts)
    unfolding place Ascending Before
    place-Ascending s [] h = (tt, tt)
    place-Ascending s (t ∷ ts) (a, h) = elim (Bool-cases (text_eq s.event_name t.event_name)) [
      | inl e ↦ elim (Bool-cases (ltb t.version s.version)) [
        | inl l ↦ let same = text_eq_sound s.event_name t.event_name e in rw (e, l) ((rw same a), h)
        | inr l ↦ rw (e, l) (a, h)
      ]
      | inr e ↦ elim (Bool-cases (before s.event_name t.event_name)) [
        | inl l ↦ rw (e, l) (((l, e), Before-weaken s t ts l a), (a, h))
        | inr l ↦
            rw (e, l)
              (
                place-All (Before t) s ts (before-Before t s (total s.event_name t.event_name e l))
                    a,
                place-Ascending s ts h,
              )
      ]
    ]

    latest-Ascending : (rows : List EventSchema) → Ascending (latest_by_event before rows)
    unfolding latest_by_event Ascending
    latest-Ascending [] = tt
    latest-Ascending (s ∷ ss) = place-Ascending s (latest_by_event before ss) (latest-Ascending ss)

    -- For a collation that is a strict total order: the schemas that VerifyContractForPublisher selects for promotion are
    -- among the candidates, no two of them have one event, they stand in the order of the event names, and each candidate
    -- has one of its event among them whose version is not lower. So they are the latest of each event.
    pub latest_by_event-Latest :
        (rows : List EventSchema)
        → ((r : EventSchema) → In r (latest_by_event before rows) → In r rows)
          × Ascending (latest_by_event before rows)
          × ((r : EventSchema) → In r rows → Beaten r (latest_by_event before rows))
    latest_by_event-Latest rows = (latest-In rows, latest-Ascending rows, latest-Beaten rows)
