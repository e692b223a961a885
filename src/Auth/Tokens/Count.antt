-- ===== src/Auth/Tokens/Count.antt =====
-- The number of active tokens of a user, and the methods that do not raise it (internal/module/auth/service:
-- api_key_service.go, publish_token_service.go).
use naralabs_atlas.Prelude.{
  ℕ, ◌+◌, ◌≤◌, ◌≡◌, refl, Bool, true, false, ◌&&◌, List, [], ◌∷◌, ◌++◌, Text, text_eq, length, keep,
  length-append, Bool-cases, inl, inr, if◌then◌else◌, ◌==◌, arith,
}
use naralabs_atlas.Auth.Tokens.{
  Token, Table, is_active_of, has_hash, new_token, insert_row, revoke_rows, touch,
}
use naralabs_atlas.Auth.Tokens.Stable.{Stable}

unfoldable pub active : Text → Table → ℕ
active user t = length (keep (is_active_of user) t.rows)

pub keep-append :
    {A : Type 0} (p : A → Bool) (xs ys : List A) → keep p (xs ++ ys) ≡ keep p xs ++ keep p ys
keep-append p [] ys = refl
keep-append p (x ∷ xs) ys = elim (Bool-cases (p x)) [
  | inl e ↦ rw (e, keep-append p xs ys)
  | inr e ↦ rw (e, keep-append p xs ys)
]

and_left : (b c : Bool) → (b && c) ≡ true → b ≡ true
and_left true c h = refl
and_left false c h = h

alike :
    {A B : Type 0} (b : Bool) (x : A) (y : B)
    → length (if b then x ∷ [] else []) ≡ length (if b then y ∷ [] else [])
alike true x y = refl
alike false x y = refl

-- A row that counts only where the other one counts.
cons_le :
    (b c : Bool) (x y : Token) (xs ys : List Token)
    → (b ≡ true → c ≡ true)
    → length xs ≤ length ys
    → length (if b then x ∷ xs else xs) ≤ length (if c then y ∷ ys else ys)
cons_le false false x y xs ys h k = k
cons_le false true x y xs ys h k = omega arith
cons_le true false x y xs ys h k = cc (h refl)
cons_le true true x y xs ys h k = omega arith

-- How many of the users are `user`.
unfoldable pub waiting : Text → List Text → ℕ
waiting user users = length (keep (λ u. text_eq u user) users)

-- One more for the user who gets a token, none for the others.
pub insert_le :
    (user u hash prefix label : Text) (t : Table)
    → active u (insert_row user hash prefix label t).1 ≤ active u t + waiting u (user ∷ [])
unfolding active insert_row waiting
insert_le user u hash prefix label t = elim (Bool-cases (has_hash hash t.rows)) [
  | inl e ↦ rw e (omega arith)
  | inr e ↦
      let row : Token = new_token user hash prefix label t in
      let mine =
        cons_le (is_active_of u row) (text_eq user u) row row [] [] (and_left (text_eq user u) true)
          (omega arith) in
      rw
        (
          e,
          keep-append (is_active_of u) t.rows (row ∷ []),
          length-append (keep (is_active_of u) t.rows) (keep (is_active_of u) (row ∷ [])),
        )
        (omega (arith, mine, alike (text_eq user u) row user))
]

and_false : (b c : Bool) → (b && false) ≡ true → c ≡ true
and_false true c h = cc
and_false false c h = cc

-- A token that is revoked, and one whose last use is written down.
revoke_le :
    (u user : Text) (id at : ℕ) (ts : List Token)
    → length (keep (is_active_of u) (revoke_rows user id at ts).1)
      ≤ length (keep (is_active_of u) ts)
unfolding revoke_rows
revoke_le u user id at [] = omega arith
revoke_le u user id at (t ∷ ts) =
    let k = revoke_le u user id at ts in
    elim (Bool-cases (t.id == id && is_active_of user t)) [
      | inl e ↦ rw e (cons_le _ (is_active_of u t) _ t _ _ (and_false (text_eq t.user_id u) _) k)
      | inr e ↦ rw e (cons_le (is_active_of u t) (is_active_of u t) t t _ _ (λ h. h) k)
    ]

touch_le :
    (u : Text) (id at : ℕ) (ts : List Token)
    → length (keep (is_active_of u) (touch id at ts)) ≤ length (keep (is_active_of u) ts)
unfolding touch
touch_le u id at [] = omega arith
touch_le u id at (t ∷ ts) =
    let k = touch_le u id at ts in
    elim (Bool-cases (t.id == id)) [
      | inl e ↦ rw e (cons_le (is_active_of u t) (is_active_of u t) _ t _ _ (λ h. h) k)
      | inr e ↦ rw e (cons_le (is_active_of u t) (is_active_of u t) t t _ _ (λ h. h) k)
    ]

-- No user has more active tokens than in `t`.
unfoldable pub NoMore : Table → Table → Type 0
unfolding active
NoMore t t' = (user : Text) → active user t' ≤ active user t

pub NoMore-Stable : (t₀ : Table) → Stable (NoMore t₀)
unfolding NoMore active
NoMore-Stable t₀ = record {
  revoked = λ user id at t h u. omega (arith, h u, revoke_le u user id at t.rows);
  touched = λ id at t h u. omega (arith, h u, touch_le u id at t.rows);
}
