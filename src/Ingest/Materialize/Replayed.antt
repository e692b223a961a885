-- ===== src/Ingest/Materialize/Replayed.antt =====
-- A replay of events that the ingest stored (internal/module/ingest/service: event_materializer.go,
-- semantic_enricher.go, replay_service.go).
use naralabs_atlas.Prelude.{
  text, text_eq, false, ◌%◌, arith, ℕ, ◌≡◌, ◌⊎◌, refl, ap, ◌∙◌, true, false, Option, none, some,
  List, [], ◌∷◌, map, Text, All, ltb, Bool-cases, inl, inr,
}
use naralabs_atlas.Stellar.Model
use naralabs_atlas.Ingest.Model.{ContractEvent}
use naralabs_atlas.Ingest.Materialize.{
  Parsers, Decoded, apply_one, apply_batch, stamp, with_fields, with_version, materialize_event,
  materialize_events, rematerialize_event, rematerialize,
}

-- What applyOne hands to the decode service.
pub record DecodeInput : Type 0 where
  pub network : Text
  pub contract_id : Text
  pub topics_xdr : List Text
  pub topics_json : Text
  pub value_xdr : Text
  pub value_json : Text

unfoldable pub input_of : ContractEvent → DecodeInput
input_of e = record {
  network = e.network;
  contract_id = e.contract_id;
  topics_xdr = e.topics_xdr;
  topics_json = e.topics_json;
  value_xdr = e.value_xdr;
  value_json = e.value_json;
}

-- A decode service whose answer is a function of its input, on an outside that it does not change.
abbrev pub answering :
    {W : Type 0} → (DecodeInput → Option Decoded) → ContractEvent → W → Option Decoded × W
answering decode e w = (decode (input_of e), w)

-- The text of the event is the one that its XDR gives, as it is for an event without JSON.
unfoldable pub Parsed : Parsers → Model.ContractEvent → Type 0
Parsed p e =
    (p.normalize_topics e.topics_xdr e.topics_json ≡ p.normalize_topics e.topics_xdr [])
    × (p.normalize_value e.value_xdr e.value_json ≡ p.normalize_value e.value_xdr [])

abbrev pub at_time : ℕ → ContractEvent → ContractEvent
at_time now e = record e { ingested_at = some now }

text_or_empty : Option Text → Text
text_or_empty none = []
text_or_empty (some raw) = raw

-- The semantic columns of a row are those of an answer of the decode service, and blank beside an error.
Carries : Option Decoded → ContractEvent → Type 0
Carries none r =
    (r.semantic_decoded ≡ false)
    × (r.decoded_event_name ≡ [])
    × (r.schema_version ≡ 0)
    × (r.decode_summary ≡ [])
    × (r.decoded_fields_json ≡ [])
Carries (some d) r =
    (r.semantic_decoded ≡ text_eq d.status (text "decoded"))
    × (r.decoded_event_name ≡ d.event_name)
    × (r.schema_version ≡ d.version % 65536)
    × (r.decode_summary ≡ d.summary)
    × (r.decoded_fields_json ≡ text_or_empty d.fields)

-- The semantic columns of a row are those that the decode service answers for it.
pub Enriched : (DecodeInput → Option Decoded) → ContractEvent → Type 0
Enriched decode r = Carries (decode (input_of r)) r

version_zero : (v : ℕ) → ltb 0 v ≡ false → 0 ≡ v % 65536
version_zero v h = ground arith

option_cases : {A : Type 0} (o : Option A) → (o ≡ none) ⊎ ((a : A) × (o ≡ some a))
option_cases none = inl refl
option_cases (some a) = inr (a, refl)

module _ (p : Parsers) (e : Model.ContractEvent) (parsed : Parsed p e) where
  -- Before the enrichment the row is as it was at the ingest, but for one column.
  rematerialized :
      (d : Option Decoded)
      → rematerialize_event p (apply_one d (materialize_event p e))
        ≡ record (materialize_event p e) {
          semantic_decoded = (apply_one d (materialize_event p e)).semantic_decoded;
        }
  unfolding rematerialize_event apply_one materialize_event with_fields with_version Parsed
  rematerialized none = rw (parsed.0, parsed.1) refl
  rematerialized (some d) = elim (Bool-cases (ltb 0 d.version)) [
    | inl v ↦ elim (option_cases d.fields) [
      | inl f ↦ rw (v, f, parsed.0, parsed.1) refl
      | inr (raw, f) ↦ rw (v, f, parsed.0, parsed.1) refl
    ]
    | inr v ↦ elim (option_cases d.fields) [
      | inl f ↦ rw (v, f, parsed.0, parsed.1) refl
      | inr (raw, f) ↦ rw (v, f, parsed.0, parsed.1) refl
    ]
  ]

  again :
      (d : Option Decoded)
      → input_of (rematerialize_event p (apply_one d (materialize_event p e)))
        ≡ input_of (materialize_event p e)
  unfolding input_of
  again d = ap input_of (rematerialized d)

  restored :
      (d : Option Decoded) (now : ℕ)
      → stamp true now (apply_one d (rematerialize_event p (apply_one d (materialize_event p e))))
        ≡ at_time now (apply_one d (materialize_event p e))
  unfolding stamp apply_one
  restored none now = ap (at_time now) (rematerialized none)
  restored (some d) now = ap (λ row. at_time now (apply_one (some d) row)) (rematerialized (some d))

input_of-apply_one :
    (d : Option Decoded) (m : ContractEvent) → input_of (apply_one d m) ≡ input_of m
unfolding input_of apply_one with_fields with_version
input_of-apply_one none m = refl
input_of-apply_one (some d) m = elim (Bool-cases (ltb 0 d.version)) [
  | inl v ↦ elim (option_cases d.fields) [ inl f ↦ rw (v, f) refl | inr (raw, f) ↦ rw (v, f) refl ]
  | inr v ↦ elim (option_cases d.fields) [ inl f ↦ rw (v, f) refl | inr (raw, f) ↦ rw (v, f) refl ]
]

apply_one-Carries :
    (p : Parsers) (e : Model.ContractEvent) (d : Option Decoded)
    → Carries d (apply_one d (materialize_event p e))
unfolding Carries apply_one with_fields with_version materialize_event text_or_empty
apply_one-Carries p e none = (refl, refl, refl, refl, refl)
apply_one-Carries p e (some d) = elim (Bool-cases (ltb 0 d.version)) [
  | inl v ↦ elim (option_cases d.fields) [
    | inl f ↦ rw (v, f) (refl, refl, refl, refl, refl)
    | inr (raw, f) ↦ rw (v, f) (refl, refl, refl, refl, refl)
  ]
  | inr v ↦ elim (option_cases d.fields) [
    | inl f ↦ rw (v, f) (refl, refl, version_zero d.version v, refl, refl)
    | inr (raw, f) ↦ rw (v, f) (refl, refl, version_zero d.version v, refl, refl)
  ]
]

module _ {W : Type 0} (p : Parsers) (decode : DecodeInput → Option Decoded) (then' now : ℕ) where
  -- What the ingest stores of the events, and what a replay of stored events stores.
  abbrev pub ingested : List Model.ContractEvent → W → List ContractEvent
  ingested es w = (apply_batch (answering decode) false then' (materialize_events p es) w).0

  abbrev pub replayed : List ContractEvent → W → List ContractEvent
  replayed rows w = (apply_batch (answering decode) true now (rematerialize p rows) w).0

  restored_rows :
      (es : List Model.ContractEvent) (w w' : W)
      → All (Parsed p) es
      → replayed (ingested es w) w' ≡ map (at_time now) (ingested es w)
  unfolding apply_batch materialize_events rematerialize stamp
  restored_rows [] w w' h = refl
  restored_rows (e ∷ es) w w' (h, k) =
      let m = materialize_event p e in
      let stored = apply_one (decode (input_of m)) m in
      let r = rematerialize_event p stored in
      let head =
        ap (λ i. stamp true now (apply_one (decode i) r)) (again p e h (decode (input_of m)))
        ∙ restored p e h (decode (input_of m)) now in
      ap (λ row. row ∷ replayed (ingested es w) w') head
      ∙ ap (λ rows. at_time now stored ∷ rows) (restored_rows es w w' k)

  ingested-Enriched :
      (es : List Model.ContractEvent) (w : W) → All (Enriched decode) (ingested es w)
  unfolding apply_batch materialize_events stamp Enriched
  ingested-Enriched [] w = tt
  ingested-Enriched (e ∷ es) w =
      let m = materialize_event p e in
      let d = decode (input_of m) in
      (rw (input_of-apply_one d m) (apply_one-Carries p e d), ingested-Enriched es w)

  -- For events whose text is the one of their XDR, and a decode service whose answer depends on its input alone: the
  -- semantic columns of each row that the ingest stores are those that the decode service answers for it, and a replay
  -- of these rows, through rematerialize and ApplyBatch, gives them again with a new ingest time.
  pub replayed-ingested :
      (es : List Model.ContractEvent) (w w' : W)
      → All (Parsed p) es
      → All (Enriched decode) (ingested es w)
        × (replayed (ingested es w) w' ≡ map (at_time now) (ingested es w))
  replayed-ingested es w w' h = (ingested-Enriched es w, restored_rows es w w' h)
