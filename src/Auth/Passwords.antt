-- ===== src/Auth/Passwords.antt =====
-- internal/module/auth/service/auth_service.go: what validatePassword asks of a password.
use naralabs_atlas.Prelude.{
  ℕ, ◌≤◌, ◌≡◌, refl, sym, ◌∙◌, Bool, true, false, ◌&&◌, ◌||◌, [], ◌∷◌, Text, ltb, ltb→le, le→ltb,
  length, ok, if◌then◌else◌, ◌↔◌,
}
use naralabs_atlas.Auth.Users.{Accounts}
use naralabs_atlas.Auth.Sessions.{validate_password, classes, lowercase, uppercase, digit}
use naralabs_atlas.Database.{Db, pure, raise}
use naralabs_atlas.Auth.Errors.{AuthError}

-- Some character of the text passes the test.
any : (ℕ → Bool) → Text → Bool
any p [] = false
any p (c ∷ s) = p c || any p s

-- At least 8 bytes, and a letter of each case and a digit among them
pub Strong : Text → Type 0
unfolding any
Strong s =
    (8 ≤ length s) × (any lowercase s ≡ true) × (any uppercase s ≡ true) × (any digit s ≡ true)

or_false : (b : Bool) → (b || false) ≡ b
or_false true = refl
or_false false = refl

or_assoc : (a b c : Bool) → ((a || b) || c) ≡ (a || (b || c))
or_assoc true b c = refl
or_assoc false b c = refl

-- The loop with its flags, and three scans
classes-any :
    (s : Text) (l u d : Bool)
    → classes s l u d ≡ ((l || any lowercase s) && ((u || any uppercase s) && (d || any digit s)))
unfolding any
classes-any [] l u d = rw (or_false l, or_false u, or_false d) refl
classes-any (c ∷ s) l u d =
    rw
      (
        classes-any s (l || lowercase c) (u || uppercase c) (d || digit c),
        or_assoc l (lowercase c) (any lowercase s),
        or_assoc u (uppercase c) (any uppercase s),
        or_assoc d (digit c) (any digit s),
      )
      refl

both : (a b c : Bool) → (a && (b && c)) ≡ true → (a ≡ true) × (b ≡ true) × (c ≡ true)
both true true true h = (refl, refl, refl)
both true true false h = cc
both true false c h = cc
both false b c h = cc

three_true : (a b c : Bool) → a ≡ true → b ≡ true → c ≡ true → (a && (b && c)) ≡ true
three_true a b c e f g = rw (e, f, g) refl

-- The two guards
guarded :
    (short strong : Bool) (e f : AuthError) (db : Db Accounts)
    → ((if short then raise e else if strong then pure tt else raise f) db).0 ≡ ok tt
    → (short ≡ false) × (strong ≡ true)
guarded true strong e f db h = cc
guarded false true e f db h = (refl, refl)
guarded false false e f db h = cc

passed :
    (short strong : Bool) (e f : AuthError) (db : Db Accounts)
    → short ≡ false
    → strong ≡ true
    → ((if short then raise e else if strong then pure tt else raise f) db).0 ≡ ok tt
passed true strong e f db h k = cc
passed false true e f db h k = refl
passed false false e f db h k = cc

-- validatePassword accepts a password just if it has at least 8 bytes and a lower-case letter, an upper-case letter
-- and a digit.
pub validate_password-Strong :
    (s : Text) (db : Db Accounts) → ((validate_password s db).0 ≡ ok tt) ↔ Strong s
unfolding validate_password Strong
validate_password-Strong s db =
    let e = classes-any s false false false in
    (
      (λ h.
          let (short, strong) = guarded (ltb (length s) 8) (classes s false false false) _ _ db h in
          let (l, u, d) = both (any lowercase s) (any uppercase s) (any digit s) (sym e ∙ strong) in
          (ltb→le (length s) 8 short, l, u, d)),
      (λ (long, l, u, d).
          passed (ltb (length s) 8) (classes s false false false) _ _ db (le→ltb (length s) 8 long)
            (e ∙ three_true (any lowercase s) (any uppercase s) (any digit s) l u d)),
    )
