-- ===== src/Config/Lists.antt =====
-- config/config.go: what RPCURLs and dedupeStrings return.
use mathlib.Core.Path.{subst}
use naralabs_atlas.Prelude.{
  ◌≡◌, refl, true, false, ◌||◌, List, [], ◌∷◌, arith, Text, text_eq, text_eq_sound, if◌then◌else◌,
  Bool-cases, inl, inr,
}
use naralabs_atlas.Config.{seen_in, dedupe_from, dedupe_strings}

-- No text stands twice in the list, and none of `seen` stands in it.
abbrev pub IsDistinct : List Text → List Text → Type 0
IsDistinct seen [] = Unit
IsDistinct seen (s ∷ ss) = (seen_in s seen ≡ false) × IsDistinct (s ∷ seen) ss

dedupe_from-IsDistinct : (seen ss : List Text) → IsDistinct seen (dedupe_from seen ss)
unfolding dedupe_from
dedupe_from-IsDistinct seen [] = tt
dedupe_from-IsDistinct seen (s ∷ ss) = elim (Bool-cases (seen_in s seen)) [
  | inl old ↦ rw (old, if◌then◌else◌) (dedupe_from-IsDistinct seen ss)
  | inr new ↦ rw (new, if◌then◌else◌) (new, dedupe_from-IsDistinct (s ∷ seen) ss)
]

-- dedupeStrings returns no text twice.
pub dedupe_strings-IsDistinct : (ss : List Text) → IsDistinct [] (dedupe_strings ss)
unfolding dedupe_strings
dedupe_strings-IsDistinct ss = dedupe_from-IsDistinct [] ss

seen_of_eq :
    (t s : Text) (seen : List Text)
    → text_eq s t ≡ true
    → seen_in s seen ≡ true
    → seen_in t seen ≡ true
seen_of_eq t s seen e h = subst (λ u. seen_in u seen ≡ true) (text_eq_sound s t e) h

seen_in-dedupe_from :
    (t : Text) (seen ss : List Text)
    → (seen_in t seen || seen_in t (dedupe_from seen ss)) ≡ (seen_in t seen || seen_in t ss)
unfolding dedupe_from seen_in
seen_in-dedupe_from t seen [] = refl
seen_in-dedupe_from t seen (s ∷ ss) = elim (Bool-cases (seen_in s seen)) [
  | inl old ↦
      rw (old, if◌then◌else◌) (ground (arith, seen_in-dedupe_from t seen ss, seen_of_eq t s seen))
  | inr new ↦ rw (new, if◌then◌else◌) (ground (arith, seen_in-dedupe_from t (s ∷ seen) ss))
]

-- dedupeStrings returns the texts that it was given, and no others.
pub seen_in-dedupe_strings :
    (t : Text) (ss : List Text) → seen_in t (dedupe_strings ss) ≡ seen_in t ss
unfolding dedupe_strings seen_in
seen_in-dedupe_strings t ss = seen_in-dedupe_from t [] ss
