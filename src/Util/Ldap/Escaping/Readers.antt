-- ===== src/Util/Ldap/Escaping/Readers.antt =====
-- What a directory reads out of the names that src/util/ldap.rs escapes: the values of RFC 4514 and
-- of RFC 4515, without the code's own tables.
use isabelle_core.Prelude.{
  leb, nat_eq, if◌then◌else◌, Bool-cases, nat_Eq, string_Eq, nat_eq_iff, is_empty, append, ℕ,
  String, ◌≡◌, refl, inl, inr, Bool, true, false, ◌&&◌, ◌||◌, not, arith, Option, some, none, List,
  [], ◌∷◌, ◌*◌, ◌+◌, ◌-◌, ap, sym, ◌∙◌,
}
use Prim.Native.Char.{Char, code}
use isabelle_core.Util.Ldap.Escaping.{
  is_dn_special, escape_dn_char, escape_dn_from, escape_dn_value, escape_filter_char,
  escape_filter_value,
}

-- The codes of a text.
unfoldable pub codes : String → List ℕ
codes String.[] = []
codes (String.◌∷◌ c s) = code c ∷ codes s

-- A code before what is read after it.
unfoldable pub before : ℕ → Option (List ℕ) → Option (List ℕ)
before c none = none
before c (some cs) = some (c ∷ cs)

-- The value of a hexadecimal digit, and of two.
unfoldable pub digit : ℕ → Option ℕ
digit c =
    if leb 0x30 c && leb c 0x39
    then some (c - 0x30)
    else if leb 0x61 c && leb c 0x66
    then some (c - 0x57)
    else none

unfoldable pub byte : Option ℕ → Option ℕ → Option ℕ
byte none o = none
byte (some high) none = none
byte (some high) (some low) = some (high * 16 + low)

unfoldable pub byte_before : Option ℕ → Option (List ℕ) → Option (List ℕ)
unfolding before
byte_before none o = none
byte_before (some c) o = before c o

-- RFC 4515, an assertion value: `*`, brackets, zero and a backslash stand only as a backslash with
-- two hexadecimal digits.
unfoldable pub is_assertion_char : ℕ → Bool
is_assertion_char c =
    not (nat_eq c 0x2A || nat_eq c 0x28 || nat_eq c 0x29 || nat_eq c 0 || nat_eq c 0x5C)

unfoldable pub read_assertion : String → Option (List ℕ)
unfolding before byte digit byte_before
read_assertion String.[] = some []
read_assertion (String.◌∷◌ c String.[]) =
    if is_assertion_char (code c) then some (code c ∷ []) else none
read_assertion (String.◌∷◌ c (String.◌∷◌ d String.[])) =
    if is_assertion_char (code c) && is_assertion_char (code d)
    then some (code c ∷ code d ∷ [])
    else none
read_assertion (String.◌∷◌ c (String.◌∷◌ d (String.◌∷◌ e s))) =
    let plain = read_assertion (String.◌∷◌ d (String.◌∷◌ e s)) in
    let escaped = read_assertion s in
    if nat_eq (code c) 0x5C
    then byte_before (byte (digit (code d)) (digit (code e))) escaped
    else if is_assertion_char (code c)
    then before (code c) plain
    else none

plain_char :
    (c : Char) (s : String) (cs : List ℕ)
    → is_assertion_char (code c) ≡ true
    → nat_eq (code c) 0x5C ≡ false
    → read_assertion s ≡ some cs
    → read_assertion (String.◌∷◌ c s) ≡ some (code c ∷ cs)
unfolding read_assertion before
plain_char c String.[] cs a b h = ground arith
plain_char c (String.◌∷◌ d String.[]) cs a b h = ground arith
plain_char c (String.◌∷◌ d (String.◌∷◌ e s)) cs a b h = rw (b, a, h) refl

read_assertion-escape_char :
    (c : Char) (s : String) (cs : List ℕ)
    → read_assertion s ≡ some cs
    → read_assertion (escape_filter_char c s) ≡ some (code c ∷ cs)
unfolding escape_filter_char append read_assertion before byte digit byte_before
read_assertion-escape_char c s cs h = elim (Bool-cases (nat_eq (code c) 0x5C)) [
  | inl hit ↦ rw hit (escaped 0x5C hit)
  | inr a ↦ elim (Bool-cases (nat_eq (code c) 0x2A)) [
    | inl hit ↦ rw (a, hit) (escaped 0x2A hit)
    | inr b ↦ elim (Bool-cases (nat_eq (code c) 0x28)) [
      | inl hit ↦ rw (a, b, hit) (escaped 0x28 hit)
      | inr d ↦ elim (Bool-cases (nat_eq (code c) 0x29)) [
        | inl hit ↦ rw (a, b, d, hit) (escaped 0x29 hit)
        | inr e ↦ elim (Bool-cases (nat_eq (code c) 0)) [
          | inl hit ↦ rw (a, b, d, e, hit) (escaped 0 hit)
          | inr f ↦
              rw (a, b, d, e, f)
                (plain_char c s cs (unfold is_assertion_char in rw (a, b, d, e, f) refl) a h)
        ]
      ]
    ]
  ]
]
  where
    escaped : (n : ℕ) → nat_eq (code c) n ≡ true → before n (read_assertion s) ≡ some (code c ∷ cs)
    escaped n hit = rw h (ap (λ x. some (x ∷ cs)) (sym ((nat_eq_iff (code c) n).0 hit)))

read_assertion-escape :
    (value : String) → read_assertion (escape_filter_value value) ≡ some (codes value)
unfolding escape_filter_value codes read_assertion
read_assertion-escape String.[] = refl
read_assertion-escape (String.◌∷◌ c s) =
    read_assertion-escape_char c (escape_filter_value s) (codes s) (read_assertion-escape s)

-- RFC 4514: what stands in a value only after a backslash, beside a backslash and zero.
unfoldable pub is_reserved : ℕ → Bool
is_reserved c =
    nat_eq c 0x22
    || nat_eq c 0x2B
    || nat_eq c 0x2C
    || nat_eq c 0x3B
    || nat_eq c 0x3C
    || nat_eq c 0x3D
    || nat_eq c 0x3E

-- A character that stands for itself; a value does not begin with a space or `#`, nor end with a
-- space. RFC 4514 lets `=` stand, too, but also be escaped.
unfoldable pub stands : Bool → Bool → ℕ → Bool
stands first last c = not (
    is_reserved c
    || nat_eq c 0x5C
    || nat_eq c 0
    || (first && nat_eq c 0x23)
    || ((first || last) && nat_eq c 0x20))

-- What may follow a backslash and then stands for itself.
unfoldable pub is_escapable : ℕ → Bool
is_escapable c = is_reserved c || nat_eq c 0x5C || nat_eq c 0x23 || nat_eq c 0x20

unfoldable pub read_attribute : Bool → String → Option (List ℕ)
unfolding before byte digit byte_before
read_attribute first String.[] = some []
read_attribute first (String.◌∷◌ c String.[]) =
    if stands first true (code c) then some (code c ∷ []) else none
read_attribute first (String.◌∷◌ c (String.◌∷◌ d String.[])) =
    let plain = read_attribute false (String.◌∷◌ d String.[]) in
    if nat_eq (code c) 0x5C
    then if is_escapable (code d) then some (code d ∷ []) else none
    else if stands first false (code c)
    then before (code c) plain
    else none
read_attribute first (String.◌∷◌ c (String.◌∷◌ d (String.◌∷◌ e s))) =
    let plain = read_attribute false (String.◌∷◌ d (String.◌∷◌ e s)) in
    let escaped = read_attribute false (String.◌∷◌ e s) in
    let coded = read_attribute false s in
    if nat_eq (code c) 0x5C
    then if is_escapable (code d)
      then before (code d) escaped
      else byte_before (byte (digit (code d)) (digit (code e))) coded
    else if stands first false (code c)
    then before (code c) plain
    else none

plain_dn_char :
    (first : Bool) (c : Char) (s : String) (cs : List ℕ)
    → stands first (is_empty s) (code c) ≡ true
    → nat_eq (code c) 0x5C ≡ false
    → read_attribute false s ≡ some cs
    → read_attribute first (String.◌∷◌ c s) ≡ some (code c ∷ cs)
unfolding read_attribute before
plain_dn_char first c String.[] cs a b h = rw a (ap (λ o. before (code c) o) h)
plain_dn_char first c (String.◌∷◌ d String.[]) cs a b h = rw (b, a) (ap (λ o. before (code c) o) h)
plain_dn_char first c (String.◌∷◌ d (String.◌∷◌ e s)) cs a b h =
    rw (b, a) (ap (λ o. before (code c) o) h)

escaped_dn_char :
    (first : Bool) (c : Char) (s : String) (cs : List ℕ)
    → is_escapable (code c) ≡ true
    → read_attribute false s ≡ some cs
    → read_attribute first (String.◌∷◌ "\\" (String.◌∷◌ c s)) ≡ some (code c ∷ cs)
unfolding read_attribute before
escaped_dn_char first c String.[] cs a h = rw a (ap (λ o. before (code c) o) h)
escaped_dn_char first c (String.◌∷◌ e s) cs a h = rw a (ap (λ o. before (code c) o) h)

zero_dn_char :
    (first : Bool) (s : String)
    → read_attribute first (String.◌∷◌ "\\" (String.◌∷◌ "0" (String.◌∷◌ "0" s)))
      ≡ before 0 (read_attribute false s)
unfolding read_attribute before is_escapable is_reserved byte byte_before digit
zero_dn_char first s = refl

-- The text is not empty once it is escaped, unless it was.
is_empty-escape_dn_char :
    (first last : Bool) (c : Char) (s : String) → is_empty (escape_dn_char first last c s) ≡ false
unfolding escape_dn_char
is_empty-escape_dn_char first last c s = ground arith

is_empty-escape_dn_from :
    (first : Bool) (s : String) → is_empty (escape_dn_from first s) ≡ is_empty s
unfolding escape_dn_from
is_empty-escape_dn_from first String.[] = refl
is_empty-escape_dn_from first (String.◌∷◌ c s) =
    is_empty-escape_dn_char first (is_empty s) c (escape_dn_from false s)

read_attribute-escape_char :
    (first : Bool) (c : Char) (s : String) (cs : List ℕ)
    → read_attribute false s ≡ some cs
    → read_attribute first (escape_dn_char first (is_empty s) c s) ≡ some (code c ∷ cs)
unfolding before escape_dn_char is_dn_special is_escapable is_reserved
read_attribute-escape_char first c s cs h = elim (Bool-cases (is_dn_special (code c))) [
  | inl hit ↦ rw hit (escaped_dn_char first c s cs (ground arith) h)
  | inr a ↦ elim (Bool-cases (nat_eq (code c) 0x23 && first)) [
    | inl hit ↦
        rw (a, hit) (as_code 0x23 "#" refl (ground arith) (escaped_dn_char first "#" s cs refl h))
    | inr b ↦ elim (Bool-cases (nat_eq (code c) 0x20 && (first || is_empty s))) [
      | inl hit ↦
          rw (a, b, hit)
            (as_code 0x20 " " refl (ground arith) (escaped_dn_char first " " s cs refl h))
      | inr d ↦ elim (Bool-cases (nat_eq (code c) 0)) [
        | inl hit ↦
            rw (a, b, d, hit)
              (zero_dn_char first s
                ∙ ap (λ o. before 0 o) h
                ∙ ap (λ k. some (k ∷ cs)) (sym ((nat_eq_iff (code c) 0).0 hit)))
        | inr e ↦
            rw (a, b, d, e)
              (plain_dn_char first c s cs (unfold stands in ground arith) (ground arith) h)
      ]
    ]
  ]
]
  where
    as_code :
        (n : ℕ) (x : Char)
        → code x ≡ n
        → nat_eq (code c) n ≡ true
        → {o : Option (List ℕ)} → o ≡ some (code x ∷ cs)
        → o ≡ some (code c ∷ cs)
    as_code n x is hit e = e ∙ ap (λ k. some (k ∷ cs)) (is ∙ sym ((nat_eq_iff (code c) n).0 hit))

read_attribute-escape_from :
    (first : Bool) (value : String)
    → read_attribute first (escape_dn_from first value) ≡ some (codes value)
unfolding escape_dn_from codes read_attribute
read_attribute-escape_from first String.[] = refl
read_attribute-escape_from first (String.◌∷◌ c s) =
    ap (λ last. read_attribute first (escape_dn_char first last c (escape_dn_from false s)))
      (sym (is_empty-escape_dn_from false s))
    ∙ read_attribute-escape_char first c (escape_dn_from false s) (codes s)
        (read_attribute-escape_from false s)

-- Whatever was typed, a directory reads an escaped name back as that very name, as one value: in a
-- filter by RFC 4515, and in a directory's name by RFC 4514, where every reserved character and
-- zero, a space at either end and a leading `#` are taken only after a backslash.
pub escape_values-read_back :
    (value : String)
    → (read_assertion (escape_filter_value value) ≡ some (codes value))
      × (read_attribute true (escape_dn_value value) ≡ some (codes value))
unfolding escape_dn_value
escape_values-read_back value = (read_assertion-escape value, read_attribute-escape_from true value)
