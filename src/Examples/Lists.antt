-- ===== src/Examples/Lists.antt =====
-- The lists of config/config.go.
use naralabs_atlas.Prelude.{◌≡◌, List, [], ◌∷◌, Text, text}
use naralabs_atlas.Config.{seen_in, dedupe_strings}
use naralabs_atlas.Config.Lists.{IsDistinct, dedupe_strings-IsDistinct, seen_in-dedupe_strings}

abbrev urls : List Text
urls = text "a" ∷ text "b" ∷ text "a" ∷ []

dedupe_strings-IsDistinct_example : IsDistinct [] (dedupe_strings urls)
dedupe_strings-IsDistinct_example = dedupe_strings-IsDistinct urls

seen_in-dedupe_strings_example : seen_in (text "b") (dedupe_strings urls) ≡ seen_in (text "b") urls
seen_in-dedupe_strings_example = seen_in-dedupe_strings (text "b") urls
