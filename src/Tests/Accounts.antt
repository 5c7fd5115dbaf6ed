-- ===== src/Tests/Accounts.antt =====
-- Runs of signing in.
use isabelle_core.Prelude.{
  ◌==◌, nat_Eq, string_Eq, lookup, insert, append, any_char, as_bytes, All, ℕ, ◌<◌, String, ◌≡◌,
  refl, ◌↔◌, true, false, some, List, [], ◌∷◌, arith, eq_iff,
}
use isabelle_core.Item.{Item, safe_bool}
use isabelle_core.Util.Crypto.{verify_password, constant_time_eq}
use isabelle_core.State.StoreMemory.{set_item, find_user, StoreMemory, memory}
use isabelle_core.State.StoreMemory.Users.{memory_laws}
use isabelle_core.Server.UserControl.{
  bump_otp_attempts, login_has_bad_symbols, get_user, otp_is_live, session_generation,
}
use isabelle_core.Server.Login.{
  try_account, count_attempt, otp_ok, local_login, authenticated, pw_ok,
}
use isabelle_core.Server.Login.Decision.{Proves, local_login-authenticated_iff}
use isabelle_core.Server.Login.Codes.{Guess, IsWrong}
use isabelle_core.Server.Login.Guesses.{guess_all, otp_guesses_bounded}
use isabelle_core.Tests.Fixtures.{
  items, caseless, hashes, users, users-WellFormed, users-alice, accepting, alice,
}

local_login-authenticated_iff_example :
    ((local_login users (record { username = "alice"; password = "pw" }) 500).1
      ≡ authenticated alice)
    ↔ ((get_user users "alice" ≡ some alice)
        × (safe_bool alice "role_is_active" false ≡ true)
        × Proves alice "pw" 500)
local_login-authenticated_iff_example =
    local_login-authenticated_iff users (record { username = "alice"; password = "pw" }) 500 alice

pub plain : login_has_bad_symbols "alice" ≡ false
unfolding login_has_bad_symbols any_char
plain = refl

pub alice_active : safe_bool alice "role_is_active" false ≡ true
unfolding lookup
alice_active = refl

pub alice_generation : session_generation alice ≡ 2
unfolding lookup session_generation
alice_generation = refl

-- Six wrong guesses.
abbrev wrong_guesses : List Guess
wrong_guesses =
    ("000000", 10)
    ∷ ("000001", 11)
    ∷ ("000002", 12)
    ∷ ("000003", 13)
    ∷ ("000004", 14)
    ∷ ("000005", 15)
    ∷ []

wrong :
    (c : String) (t : ℕ)
    → ("123456" == c) ≡ false
    → (append "h:" c == "h:pw") ≡ false
    → t < 1000
    → IsWrong alice (c, t)
unfolding pw_ok lookup verify_password
wrong c t not_code not_password in_time = record {
  not_code = λ (e : "123456" ≡ c). ground (arith, eq_iff "123456" c);
  not_password = not_password;
  in_time = in_time;
}

wrong_guesses-IsWrong : All (IsWrong alice) wrong_guesses
unfolding append
wrong_guesses-IsWrong = (
  wrong "000000" 10 refl refl (omega arith),
  (
    wrong "000001" 11 refl refl (omega arith),
    (
      wrong "000002" 12 refl refl (omega arith),
      (
        wrong "000003" 13 refl refl (omega arith),
        (
          wrong "000004" 14 refl refl (omega arith),
          (wrong "000005" 15 refl refl (omega arith), tt),
        ),
      ),
    ),
  ),
)

-- Alice's account after the guesses, with five failures on record.
abbrev guessed : Item
guessed = record alice {
  u64s = ("session_gen", 2) ∷ ("otp_expires_at", 1000) ∷ ("otp_attempts", 5) ∷ [];
}

abbrev after_guesses : StoreMemory
after_guesses =
    guess_all memory_laws (λ s itm. accepting s itm true) "alice" plain users wrong_guesses

guessed_alice : find_user after_guesses "alice" ≡ some guessed
unfolding find_user set_item insert lookup guess_all local_login try_account count_attempt
    bump_otp_attempts get_user otp_is_live otp_ok pw_ok verify_password constant_time_eq
    login_has_bad_symbols any_char as_bytes append
guessed_alice = refl

otp_guesses_bounded_example : otp_is_live guessed 20 ≡ false
unfolding memory_laws
otp_guesses_bounded_example =
    otp_guesses_bounded memory_laws (λ s itm. accepting s itm true) "alice" plain users alice
      guessed wrong_guesses 20 users-WellFormed users-alice (λ e. omega (arith, e)) alice_active
      wrong_guesses-IsWrong (omega arith) guessed_alice
