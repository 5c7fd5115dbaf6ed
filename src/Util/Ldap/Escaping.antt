-- ===== src/Util/Ldap/Escaping.antt =====
-- src/util/ldap.rs: how a name that a person types is put into a directory's name or filter.
pub mod Readers
use isabelle_core.Prelude.{
  leb, nat_eq, if◌then◌else◌, Bool-cases, nat_Eq, string_Eq, is_empty, append, ℕ, String, ◌≡◌, refl,
  inl, inr, Bool, true, false, ◌&&◌, ◌||◌, not, arith,
}
use Prim.Native.Char.{Char, code}

-- The characters that are escaped everywhere in a name: `, + " \ < > ; =`.
unfoldable pub is_dn_special : ℕ → Bool
is_dn_special c =
    nat_eq c 0x2C
    || nat_eq c 0x2B
    || nat_eq c 0x22
    || nat_eq c 0x5C
    || nat_eq c 0x3C
    || nat_eq c 0x3E
    || nat_eq c 0x3B
    || nat_eq c 0x3D

-- What one character becomes; `first` and `last` say where it stands.
unfoldable pub escape_dn_char : Bool → Bool → Char → String → String
unfolding is_dn_special
escape_dn_char first last c out =
    if is_dn_special (code c)
    then String.◌∷◌ "\\" (String.◌∷◌ c out)
    else if nat_eq (code c) 0x23 && first
    then String.◌∷◌ "\\" (String.◌∷◌ "#" out)
    else if nat_eq (code c) 0x20 && (first || last)
    then String.◌∷◌ "\\" (String.◌∷◌ " " out)
    else if nat_eq (code c) 0
    then String.◌∷◌ "\\" (String.◌∷◌ "0" (String.◌∷◌ "0" out))
    else String.◌∷◌ c out

-- The loop over the characters, the first of which is the first of the value if `first`.
unfoldable pub escape_dn_from : Bool → String → String
unfolding escape_dn_char
escape_dn_from first String.[] = ""
escape_dn_from first (String.◌∷◌ c s) = escape_dn_char first (is_empty s) c (escape_dn_from false s)

unfoldable pub escape_dn_value : String → String
unfolding escape_dn_from
escape_dn_value value = escape_dn_from true value

unfoldable pub escape_filter_char : Char → String → String
escape_filter_char c out =
    if nat_eq (code c) 0x5C
    then append "\\5c" out
    else if nat_eq (code c) 0x2A
    then append "\\2a" out
    else if nat_eq (code c) 0x28
    then append "\\28" out
    else if nat_eq (code c) 0x29
    then append "\\29" out
    else if nat_eq (code c) 0
    then append "\\00" out
    else String.◌∷◌ c out

unfoldable pub escape_filter_value : String → String
unfolding escape_filter_char
escape_filter_value String.[] = ""
escape_filter_value (String.◌∷◌ c s) = escape_filter_char c (escape_filter_value s)

-- `replace("%u", with)`
unfoldable pub replace_user : String → String → String
replace_user String.[] with = ""
replace_user (String.◌∷◌ c String.[]) with = String.◌∷◌ c ""
replace_user (String.◌∷◌ c (String.◌∷◌ d s)) with =
    let rest = replace_user (String.◌∷◌ d s) with in
    let after = replace_user s with in
    if nat_eq (code c) 0x25 && nat_eq (code d) 0x75 then append with after else String.◌∷◌ c rest

unfoldable pub user_dn : String → String → String
unfolding replace_user
user_dn template username = replace_user template (escape_dn_value username)

unfoldable pub search_filter : String → String → String
unfolding replace_user
search_filter filter username = replace_user filter (escape_filter_value username)
