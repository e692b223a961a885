-- ===== src/Registry/Verify/Nonces.antt =====
-- The rows of verify_challenges under the statements of internal/module/registry/repository/
-- verify_challenge_repository.go.
use naralabs_atlas.Prelude.{
  ℕ, ◌≡◌, ◌⊎◌, ◌∙◌, refl, subst, Bool, true, false, ◌&&◌, Option, none, some, List, [], ◌∷◌, ◌++◌,
  Text, text_eq, text_eq_sound, All, All-append, Bool-cases, inl, inr, if◌then◌else◌,
}
use naralabs_atlas.Registry.Verify.{
  Registry, Key, Challenge, first, has_key, has_nonce, is_none, is_usable, insert_challenge,
  use_rows, use_challenge,
}

-- The nonce is in the table, and its rows are used.
unfoldable pub UsedUp : Text → List Challenge → Type 0
UsedUp n cs =
    All (λ (c : Challenge). has_nonce n c ≡ true → is_none c.used_at ≡ false) cs
    × (is_none (first (has_nonce n) cs) ≡ false)

unfoldable pub Spent : Text → Registry → Type 0
unfolding UsedUp
Spent n t = UsedUp n t.challenges

-- No row has the nonce.
unfoldable pub NoRow : Text → List Challenge → Type 0
NoRow n cs = All (λ (c : Challenge). has_nonce n c ≡ false) cs

-- At most one row has it.
unfoldable pub OneRow : Text → List Challenge → Type 0
unfolding NoRow
OneRow n [] = Unit {0}
OneRow n (c ∷ cs) = (has_nonce n c ≡ true → NoRow n cs) × OneRow n cs

-- The column nonce is unique.
unfoldable pub OneNonce : Text → Registry → Type 0
unfolding OneRow
OneNonce n t = OneRow n t.challenges

key_nonce : (a b c d e : Bool) → (a && (b && (c && (d && e)))) ≡ true → e ≡ true
key_nonce true true true true e h = h
key_nonce true true true false e h = cc
key_nonce true true false d e h = cc
key_nonce true false c d e h = cc
key_nonce false b c d e h = cc

and_left : (b c : Bool) → (b && c) ≡ true → b ≡ true
and_left true c h = refl
and_left false c h = cc

usable_nonce :
    (k : Key) (at : ℕ) (c : Challenge) → is_usable k at c ≡ true → has_nonce k.nonce c ≡ true
usable_nonce k at c h =
    key_nonce (text_eq c.project_id k.project_id) (text_eq c.user_id k.user_id)
      (text_eq c.contract_id k.contract_id) (text_eq c.network k.network) _
      (and_left (has_key k c) _ h)

same_first :
    (b : Bool) (x y : Challenge) (r s : Option Challenge)
    → is_none r ≡ is_none s
    → is_none (if b then some x else r) ≡ is_none (if b then some y else s)
same_first true x y r s h = refl
same_first false x y r s h = h

some_first :
    (b : Bool) (x : Challenge) (r : Option Challenge)
    → b ≡ true ⊎ (is_none r ≡ false)
    → is_none (if b then some x else r) ≡ false
some_first true x r h = refl
some_first false x r (inl h) = cc
some_first false x r (inr h) = h

not_both : (b : Bool) → b ≡ false → b ≡ true → ⊥
not_both b f t = cc

kept_found :
    (b : Bool) (x m : Text) (r : Option Text) (ys zs : List Challenge)
    → b ≡ false
    → (if◌then◌else◌ {A = Option Text × List Challenge} b (some x, ys) (r, zs)).0 ≡ some m
    → r ≡ some m
kept_found true x m r ys zs e h = cc
kept_found false x m r ys zs e h = h

left_false : (a : Bool) → (a && false) ≡ true → false ≡ true
left_false true h = h
left_false false h = h

unused : (a b c : Bool) → (a && (b && c)) ≡ true → b ≡ false → ⊥
unused a false c h e = cc (left_false a h)
unused a true c h e = cc

module _ (k : Key) (at : ℕ) where
  -- Used rows stay used, and no row comes or goes.
  use-All :
      (n : Text) (cs : List Challenge)
      → All (λ (c : Challenge). has_nonce n c ≡ true → is_none c.used_at ≡ false) cs
      → All
          (λ (c : Challenge). has_nonce n c ≡ true → is_none c.used_at ≡ false)
          (use_rows k at cs).1
  unfolding use_rows
  use-All n [] h = tt
  use-All n (c ∷ cs) (h, hs) = elim (Bool-cases (is_usable k at c)) [
    | inl e ↦ rw e ((λ i. refl), use-All n cs hs)
    | inr e ↦ rw e (h, use-All n cs hs)
  ]

  use-first :
      (n : Text) (cs : List Challenge)
      → is_none (first (has_nonce n) (use_rows k at cs).1) ≡ is_none (first (has_nonce n) cs)
  unfolding use_rows first
  use-first n [] = refl
  use-first n (c ∷ cs) = elim (Bool-cases (is_usable k at c)) [
    | inl e ↦ rw e (same_first (has_nonce n c) _ c _ _ (use-first n cs))
    | inr e ↦ rw e (same_first (has_nonce n c) c c _ _ (use-first n cs))
  ]

  pub use-Spent : (n : Text) (t : Registry) → Spent n t → Spent n (use_challenge k at t).1
  unfolding Spent UsedUp use_challenge
  use-Spent n t (h, f) = (use-All n t.challenges h, use-first n t.challenges ∙ f)

  -- A nonce that no row has
  absent-rows : (cs : List Challenge) → NoRow k.nonce cs → (use_rows k at cs).0 ≡ none
  unfolding use_rows NoRow
  absent-rows [] h = refl
  absent-rows (c ∷ cs) (h, hs) = elim (Bool-cases (is_usable k at c)) [
    | inl e ↦ absurd (not_both _ h (usable_nonce k at c e))
    | inr e ↦ rw e (absent-rows cs hs)
  ]

  NoRow-used :
      (cs : List Challenge)
      → NoRow k.nonce cs
      → All (λ (c : Challenge). has_nonce k.nonce c ≡ true → is_none c.used_at ≡ false) cs
  unfolding NoRow
  NoRow-used [] h = tt
  NoRow-used (c ∷ cs) (h, hs) = ((λ i. absurd (not_both _ h i)), NoRow-used cs hs)

  -- An UPDATE that returned a message leaves its nonce used up.
  pub use-UsedUp :
      (cs : List Challenge) (m : Text)
      → OneRow k.nonce cs
      → (use_rows k at cs).0 ≡ some m
      → UsedUp k.nonce (use_rows k at cs).1
  unfolding use_rows OneRow UsedUp first
  use-UsedUp [] m one h = absurd (cc h)
  use-UsedUp (c ∷ cs) m (one, ones) h = elim (Bool-cases (is_usable k at c)) [
    | inl e ↦
        let n = usable_nonce k at c e in
        rw e (
          ((λ i. refl), use-All k.nonce cs (NoRow-used cs (one n))),
          some_first (has_nonce k.nonce c) _ _ (inl n),
        )
    | inr e ↦
        let h' = kept_found (is_usable k at c) c.message m (use_rows k at cs).0 _ _ e h in
        let rest = use-UsedUp cs m ones h' in
        rw e (
          ((λ i. absurd (cc (absent-rows cs (one i), h'))), rest.0),
          some_first (has_nonce k.nonce c) c _ (inr rest.1),
        )
  ]

  -- A nonce that is used up
  pub spent-rows :
      (cs : List Challenge)
      → All (λ (c : Challenge). has_nonce k.nonce c ≡ true → is_none c.used_at ≡ false) cs
      → (use_rows k at cs).0 ≡ none
  unfolding use_rows
  spent-rows [] h = refl
  spent-rows (c ∷ cs) (h, hs) = elim (Bool-cases (is_usable k at c)) [
    | inl e ↦ absurd (unused (has_key k c) (is_none c.used_at) _ e (h (usable_nonce k at c e)))
    | inr e ↦ rw e (spent-rows cs hs)
  ]

-- A challenge is inserted with a nonce that is new.
rest_first :
    (b : Bool) (x : Challenge) (r : Option Challenge)
    → b ≡ false
    → is_none (if b then some x else r) ≡ false
    → is_none r ≡ false
rest_first true x r e h = cc
rest_first false x r e h = h

first-append :
    (p : Challenge → Bool) (xs ys : List Challenge)
    → is_none (first p xs) ≡ false
    → is_none (first p (xs ++ ys)) ≡ false
unfolding first
first-append p [] ys h = cc
first-append p (x ∷ xs) ys h = elim (Bool-cases (p x)) [
  | inl e ↦ some_first (p x) x _ (inl e)
  | inr e ↦ some_first (p x) x _ (inr (first-append p xs ys (rest_first (p x) x (first p xs) e h)))
]

pub insert-Spent :
    (n : Text) (k : Key) (message : Text) (expires_at : ℕ) (t : Registry)
    → Spent n t
    → Spent n (insert_challenge k message expires_at t).1
unfolding Spent UsedUp insert_challenge
insert-Spent n k message expires_at t (h, f) =
    elim (Bool-cases (is_none (first (has_nonce k.nonce) t.challenges))) [
      | inl e ↦ rw e (
        All-append _ t.challenges _ h (
          (λ i. absurd (
              not_both _ f (
                subst (λ j. is_none (first (has_nonce j) t.challenges) ≡ true)
                  (text_eq_sound k.nonce n i) e))),
          tt,
        ),
        first-append (has_nonce n) t.challenges _ f,
      )
      | inr e ↦ rw e (h, f)
    ]
