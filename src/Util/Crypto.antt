-- ===== src/Util/Crypto.antt =====
-- src/util/crypto.rs: `constant_time_eq`, which reads every byte whatever the first difference.
-- Hashing and salts are calls of the crate `argon2`: see `PasswordApi`.
use Prim.Native.Nat.{bit_or, bit_xor, bit_or-bitwise, bit_xor-bitwise, digits, differ}
use isabelle_core.Prelude.{
  if◌then◌else◌, ◌==◌, nat_Eq, string_Eq, nat_eq_refl, length, ℕ, zero, suc, ◌/◌, ◌%◌, ◌≤◌, max,
  String, ◌≡◌, refl, sym, ap, ◌∙◌, ◌↔◌, Bool, true, false, not, List, [], ◌∷◌, arith,
}

-- `diff |= x ^ y` over the zipped bytes
unfoldable pub diff_of : ℕ → List ℕ → List ℕ → ℕ
diff_of diff [] ys = diff
diff_of diff (x ∷ xs) [] = diff
diff_of diff (x ∷ xs) (y ∷ ys) = diff_of (bit_or diff (bit_xor x y)) xs ys

unfoldable pub constant_time_eq : List ℕ → List ℕ → Bool
unfolding diff_of
constant_time_eq a b = if not (length a == length b) then false else diff_of 0 a b == 0

differ-eq-zero : (x y : ℕ) → differ x y ≡ 0 → x ≡ y
differ-eq-zero zero y e = omega arith
differ-eq-zero (suc x) zero e = absurd (omega arith)
differ-eq-zero (suc x) (suc y) e = ap suc (differ-eq-zero x y e)

differ_self : (x : ℕ) → differ x x ≡ 0
differ_self zero = refl
differ_self (suc x) = differ_self x

xor_digits-eq-zero : (n a b : ℕ) → a ≤ n → digits (λ b. b) differ n a b ≡ 0 → a ≡ b
xor_digits-eq-zero zero zero b h e = omega arith
xor_digits-eq-zero zero (suc a) b h e = absurd (omega arith)
xor_digits-eq-zero (suc n) zero b h e = omega arith
xor_digits-eq-zero (suc n) (suc a) b h e =
    let low : suc a % 2 ≡ b % 2 = differ-eq-zero _ _ (omega arith) in
    let high : suc a / 2 ≡ b / 2 =
      xor_digits-eq-zero n (suc a / 2) (b / 2) (omega arith) (omega arith) in
    omega arith

xor_digits_self : (n a : ℕ) → a ≤ n → digits (λ b. b) differ n a a ≡ 0
xor_digits_self zero zero h = refl
xor_digits_self zero (suc a) h = absurd (omega arith)
xor_digits_self (suc n) zero h = refl
xor_digits_self (suc n) (suc a) h =
    omega (arith, differ_self (suc a % 2), xor_digits_self n (suc a / 2) (omega arith))

or_digits-eq-zero : (n a b : ℕ) → a ≤ n → digits (λ b. b) max n a b ≡ 0 → (a ≡ 0) × (b ≡ 0)
or_digits-eq-zero zero zero b h e = (refl, e)
or_digits-eq-zero zero (suc a) b h e = absurd (omega arith)
or_digits-eq-zero (suc n) zero b h e = (refl, e)
or_digits-eq-zero (suc n) (suc a) b h e =
    let (p, q) = or_digits-eq-zero n (suc a / 2) (b / 2) (omega arith) (omega arith) in
    absurd (omega arith)

bit_xor-eq-zero : (x y : ℕ) → bit_xor x y ≡ 0 → x ≡ y
bit_xor-eq-zero x y e = xor_digits-eq-zero x x y (omega arith) (sym (bit_xor-bitwise x y) ∙ e)

bit_xor_self : (x : ℕ) → bit_xor x x ≡ 0
bit_xor_self x = bit_xor-bitwise x x ∙ xor_digits_self x x (omega arith)

bit_or-eq-zero : (x y : ℕ) → bit_or x y ≡ 0 → (x ≡ 0) × (y ≡ 0)
bit_or-eq-zero x y e = or_digits-eq-zero x x y (omega arith) (sym (bit_or-bitwise x y) ∙ e)

diff_of-eq-zero :
    (diff : ℕ) (xs ys : List ℕ)
    → length xs ≡ length ys
    → diff_of diff xs ys ≡ 0
    → (diff ≡ 0) × (xs ≡ ys)
unfolding diff_of
diff_of-eq-zero diff [] [] h e = (e, refl)
diff_of-eq-zero diff [] (y ∷ ys) h e = absurd (omega arith)
diff_of-eq-zero diff (x ∷ xs) [] h e = absurd (omega arith)
diff_of-eq-zero diff (x ∷ xs) (y ∷ ys) h e =
    let (acc, rest) = diff_of-eq-zero (bit_or diff (bit_xor x y)) xs ys (omega arith) e in
    let (before, here) = bit_or-eq-zero diff (bit_xor x y) acc in
    (before, cc (bit_xor-eq-zero x y here, rest))

diff_of_self : (xs : List ℕ) → diff_of 0 xs xs ≡ 0
unfolding diff_of
diff_of_self [] = refl
diff_of_self (x ∷ xs) = rw bit_xor_self (diff_of_self xs)

-- The comparison answers `true` exactly for equal byte strings.
pub constant_time_eq_iff : (a b : List ℕ) → (constant_time_eq a b ≡ true) ↔ (a ≡ b)
unfolding constant_time_eq
constant_time_eq_iff a b = (
  λ h. (diff_of-eq-zero 0 a b (ground arith) (ground arith)).1,
  λ e. rw (e, nat_eq_refl (length b), diff_of_self b),
)

-- What `argon2` offers: whether a stored hash can be read, and whether a password fits one.
pub record PasswordApi : Type 0 where
  pub parses : String → Bool
  pub fits : String → String → Bool

-- A hash that cannot be read fits no password.
unfoldable pub verify_password : ⦃a : PasswordApi⦄ → String → String → Bool
verify_password ⦃a⦄ pw pw_hash = if a.parses pw_hash then a.fits pw pw_hash else false
