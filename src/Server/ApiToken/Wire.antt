-- ===== src/Server/ApiToken/Wire.antt =====
-- src/server/api_token.rs: how a token is written and read back.
use isabelle_core.Prelude.{
  nat_eq, if◌then◌else◌, nat_Eq, string_Eq, u64_max, is_empty, append, any_char, trim_end, trim,
  eq_ignore_ascii_case, split_once, split_once-append, strip_prefix, trim_end-append, to_decimal,
  parse_u64, is_number, to_decimal-is_number, parse_u64-to_decimal, ℕ, ◌≤◌, String, ◌≡◌, refl, ap,
  ◌∙◌, true, false, not, Option, none, some, arith,
}
use isabelle_core.Server.ApiToken.{
  Presented, Rejected, unknown, wrong_secret, revoked, expired, owner_inactive,
}

-- `PREFIX`
abbrev pub token_prefix : String
token_prefix = "mid_"

unfoldable pub presented_as : String → Option ℕ → Option Presented
presented_as secret none = none
presented_as secret (some id) = some (record { id = id; secret = secret })

unfoldable pub parse_parts : Option (String × String) → Option Presented
unfolding presented_as
parse_parts none = none
parse_parts (some (id, secret)) =
    if is_empty secret then none else presented_as secret (parse_u64 id)

-- `rest.split_once('_')`
unfoldable pub parse_rest : Option String → Option Presented
unfolding parse_parts
parse_rest none = none
parse_rest (some rest) = parse_parts (split_once 0x5F rest)

unfoldable pub parse : String → Option Presented
unfolding parse_rest
parse presented = parse_rest (strip_prefix (trim presented) token_prefix)

unfoldable pub bearer_of : Option (String × String) → Option Presented
unfolding parse
bearer_of none = none
bearer_of (some (scheme, value)) =
    if not (eq_ignore_ascii_case scheme "bearer") then none else parse value

-- `header.split_once(' ')`
unfoldable pub from_header : String → Option Presented
unfolding bearer_of
from_header header = bearer_of (split_once 0x20 header)

unfoldable pub assemble : ℕ → String → String
assemble id secret = append token_prefix (append (to_decimal id) (append "_" secret))

unfoldable pub reason : Rejected → String
reason unknown = "no such token"
reason wrong_secret = "secret does not match"
reason revoked = "token was revoked"
reason expired = "token has expired"
reason owner_inactive = "owner is inactive or gone"

-- A text that begins with a character and does not end in white space is trimmed already.
trim-assemble :
    (id : ℕ) (secret : String)
    → is_empty secret ≡ false
    → trim_end secret ≡ secret
    → trim (assemble id secret) ≡ assemble id secret
unfolding trim assemble append
trim-assemble id secret full tidy =
    let kept : is_empty (trim_end secret) ≡ false = rw tidy full in
    let tail : trim_end (append "_" secret) ≡ append "_" secret =
      trim_end-append "_" secret kept ∙ ap (λ x. append "_" x) tidy in
    let body : trim_end (append (to_decimal id) (append "_" secret))
        ≡ append (to_decimal id) (append "_" secret) =
      trim_end-append (to_decimal id) (append "_" secret) (ap is_empty tail)
      ∙ ap (λ x. append (to_decimal id) x) tail in
    ap (λ x. append token_prefix x) body

number-has_no : (s : String) → is_number s ≡ true → any_char (λ n. nat_eq n 0x5F) s ≡ false
unfolding is_number any_char
number-has_no String.[] h = refl
number-has_no (String.◌∷◌ c s) h = ground (arith, number-has_no s)

-- A token that is assembled is read back as its id and its secret, if the id is a 64-bit number and
-- the secret is not empty and does not end in white space.
pub parse-assemble :
    (id : ℕ) (secret : String)
    → id ≤ u64_max
    → is_empty secret ≡ false
    → trim_end secret ≡ secret
    → parse (assemble id secret) ≡ some (record { id = id; secret = secret })
unfolding parse parse_rest parse_parts presented_as assemble strip_prefix append
parse-assemble id secret fits full tidy =
    let cut : split_once 0x5F (append (to_decimal id) (append "_" secret))
        ≡ some (to_decimal id, secret) =
      unfold append in
      split_once-append 0x5F (to_decimal id) "_" secret
        (number-has_no (to_decimal id) (to_decimal-is_number id)) refl in
    ap (λ t. parse_rest (strip_prefix t token_prefix)) (trim-assemble id secret full tidy)
    ∙ ap parse_parts cut
    ∙ rw (full, parse_u64-to_decimal id fits) refl
