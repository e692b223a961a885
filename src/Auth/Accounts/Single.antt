-- ===== src/Auth/Accounts/Single.antt =====
-- The links that internal/module/auth/service/auth_service.go mails: how many of them are open at a time.
use naralabs_atlas.Prelude.{
  ℕ, ◌≤◌, ◌≡◌, refl, Bool, true, false, ◌&&◌, some, List, [], ◌∷◌, ◌++◌, Text, text_eq,
  text_eq_sound, length, keep, length-append, Bool-cases, inl, inr, if◌then◌else◌, arith,
}
use naralabs_atlas.Auth.Tokens.{is_none}
use naralabs_atlas.Auth.Tokens.Count.{keep-append}
use naralabs_atlas.Auth.Users.{
  User, Link, Accounts, Purpose, to_verify, to_reset, links, set_links, first, by_email,
  update_rows, update_users, insert_user,
}
use naralabs_atlas.Auth.Links.{is_open_of, consume_links, insert_link}

-- The open links of a user
unfoldable pub opens : Text → List Link → ℕ
opens user ls = length (keep (is_open_of user) ls)

-- A user has at most one open link of each purpose.
unfoldable pub Single : Accounts → Type 0
unfolding opens
Single t = (user : Text) → (opens user t.verifications ≤ 1) × (opens user t.resets ≤ 1)

-- The user has no open link of the purpose.
unfoldable pub Ready : Purpose → Text → Accounts → Type 0
Ready purpose user t = Single t × (opens user (links purpose t) ≡ 0)

cons_le :
    (b c : Bool) (x y : Link) (xs ys : List Link)
    → (b ≡ true → c ≡ true)
    → length xs ≤ length ys
    → length (if b then x ∷ xs else xs) ≤ length (if c then y ∷ ys else ys)
cons_le false false x y xs ys h k = k
cons_le false true x y xs ys h k = omega arith
cons_le true false x y xs ys h k = cc (h refl)
cons_le true true x y xs ys h k = omega arith

and_false : (b c : Bool) → (b && false) ≡ true → c ≡ true
and_false true c h = cc
and_false false c h = cc

-- A consumed link is not open.
consume_le :
    (user : Text) (p : Link → Bool) (at : ℕ) (ls : List Link)
    → opens user (update_rows p (λ l. record l { consumed_at = some at }) ls).1 ≤ opens user ls
unfolding opens update_rows
consume_le user p at [] = omega arith
consume_le user p at (l ∷ ls) =
    let k = consume_le user p at ls in
    elim (Bool-cases (p l)) [
      | inl e ↦
          rw e (cons_le _ (is_open_of user l) _ l _ _ (and_false (text_eq l.user_id user) _) k)
      | inr e ↦ rw e (cons_le (is_open_of user l) (is_open_of user l) l l _ _ (λ h. h) k)
    ]

and_no : (b : Bool) → (b && false) ≡ false
and_no true = refl
and_no false = refl

none_open :
    (user : Text) (at : ℕ) (ls : List Link)
    → opens user (update_rows (is_open_of user) (λ l. record l { consumed_at = some at }) ls).1 ≡ 0
unfolding opens update_rows
none_open user at [] = refl
none_open user at (l ∷ ls) = elim (Bool-cases (is_open_of user l)) [
  | inl e ↦ rw (e, and_no (text_eq l.user_id user)) (none_open user at ls)
  | inr e ↦ rw (e, e) (none_open user at ls)
]

one_le : (b : Bool) (l : Link) → length (if b then l ∷ [] else []) ≤ 1
one_le true l = omega arith
one_le false l = omega arith

-- A new link is open for its user only.
append_le :
    (user u : Text) (l : Link) (ls : List Link)
    → l.user_id ≡ user
    → (user ≡ u → opens u ls ≡ 0)
    → opens u ls ≤ 1
    → opens u (ls ++ l ∷ []) ≤ 1
unfolding opens
append_le user u l ls same z h =
    rw
      (
        keep-append (is_open_of u) ls (l ∷ []),
        length-append (keep (is_open_of u) ls) (keep (is_open_of u) (l ∷ [])),
      )
      (elim (Bool-cases (text_eq l.user_id u)) [
        | inl e ↦ omega (arith, z (cc (text_eq_sound l.user_id u e)), one_le (is_open_of u l) l)
        | inr e ↦ rw e (omega (arith, h))
      ])

pub insert-Single :
    (purpose : Purpose) (user hash : Text) (expires_at : ℕ) (t : Accounts)
    → Ready purpose user t
    → Single (insert_link purpose user hash expires_at t)
unfolding insert_link Single Ready
insert-Single to_verify user hash expires_at t (h, z) u =
    (append_le user u _ t.verifications refl (λ e. cc z) (h u).0, (h u).1)
insert-Single to_reset user hash expires_at t (h, z) u =
    ((h u).0, append_le user u _ t.resets refl (λ e. cc z) (h u).1)

pub consume-Single :
    (purpose : Purpose) (p : Link → Bool) (at : ℕ) (t : Accounts)
    → Single t
    → Single (set_links purpose (consume_links p at (links purpose t)) t)
unfolding consume_links Single
consume-Single to_verify p at t h u =
    (omega (arith, (h u).0, consume_le u p at t.verifications), (h u).1)
consume-Single to_reset p at t h u = ((h u).0, omega (arith, (h u).1, consume_le u p at t.resets))

pub invalidate-Ready :
    (purpose : Purpose) (user : Text) (at : ℕ) (t : Accounts)
    → Single t
    → Ready purpose user
        (set_links purpose (consume_links (is_open_of user) at (links purpose t)) t)
unfolding consume_links Ready
invalidate-Ready to_verify user at t h =
    (consume-Single to_verify (is_open_of user) at t h, none_open user at t.verifications)
invalidate-Ready to_reset user at t h =
    (consume-Single to_reset (is_open_of user) at t h, none_open user at t.resets)

-- The tables of users and mails do not matter.
pub insert_user-Single :
    (uuid : ℕ → Text) (email hash : Text) (t : Accounts)
    → Single t
    → Single (insert_user uuid email hash t).1
unfolding insert_user Single
insert_user-Single uuid email hash t h =
    elim (Bool-cases (is_none (first (by_email email) t.users))) [ inl e ↦ rw e h | inr e ↦ rw e h ]

pub update_users-Single :
    (p : User → Bool) (f : User → User) (t : Accounts) → Single t → Single (update_users p f t).1
unfolding update_users Single
update_users-Single p f t h = h
