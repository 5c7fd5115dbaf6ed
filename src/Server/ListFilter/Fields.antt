-- ===== src/Server/ListFilter/Fields.antt =====
-- src/server/list_filter.rs: a field that may be asked about is no credential. The marks hold no
-- dot, so a mark in a path lies inside one of its segments.
use isabelle_core.Prelude.{
  nat_eq, Bool-cases, ◌==◌, nat_Eq, string_Eq, any, all, is_empty, starts_with, contains_text,
  any_char, first_part, split_on, Casing, to_lowercase, to_lowercase, All, ℕ, String, ◌≡◌, refl,
  inl, inr, Bool, true, false, ◌&&◌, ◌||◌, not, List, [], ◌∷◌, arith,
}
use Prim.Native.Char.{Char, code}
use isabelle_core.Server.ListFilter.{
  credential_markers, is_marked, is_credential_field, segment_is_allowed, field_is_allowed,
}

-- The text without the character `k`.
abbrev Without : ℕ → String → Type 0
Without k p = any_char (λ c. c == k) p ≡ false

abbrev head_of : List String → String
head_of [] = ""
head_of (x ∷ xs) = x

head-first_part :
    (c : Char) (xs : List String) → head_of (first_part c xs) ≡ String.◌∷◌ c (head_of xs)
unfolding first_part
head-first_part c [] = refl
head-first_part c (x ∷ xs) = refl

-- The first part of a text split at `k` starts with all that the text starts with, up to `k`.
starts_with-head :
    (k : ℕ) (s p : String)
    → Without k p
    → starts_with s p ≡ true
    → starts_with (head_of (split_on k s)) p ≡ true
unfolding split_on any_char
starts_with-head k s String.[] h e = refl
starts_with-head k String.[] (String.◌∷◌ c p) h e = cc e
starts_with-head k (String.◌∷◌ d s) (String.◌∷◌ c p) h e =
    let rest = starts_with-head k s p (ground arith) (ground arith) in
    let apart : nat_eq (code d) k ≡ false = ground arith in
    rw (apart, head-first_part d (split_on k s)) (ground arith)

contains-starts : (s p : String) → starts_with s p ≡ true → contains_text s p ≡ true
unfolding contains_text
contains-starts String.[] p e = e
contains-starts (String.◌∷◌ c s) p e = rw e refl

any-head :
    (xs : List String) (p : String)
    → is_empty p ≡ false
    → starts_with (head_of xs) p ≡ true
    → any (λ part. contains_text part p) xs ≡ true
any-head [] String.[] full e = cc full
any-head [] (String.◌∷◌ c p) full e = cc e
any-head (x ∷ xs) p full e = rw (contains-starts x p e) refl

any-first_part :
    (c : Char) (xs : List String) (p : String)
    → any (λ part. contains_text part p) xs ≡ true
    → any (λ part. contains_text part p) (first_part c xs) ≡ true
unfolding first_part contains_text
any-first_part c [] p e = cc e
any-first_part c (x ∷ xs) p e = ground arith

contains_text-split_on :
    (k : ℕ) (s p : String)
    → Without k p
    → is_empty p ≡ false
    → contains_text s p ≡ true
    → any (λ part. contains_text part p) (split_on k s) ≡ true
unfolding contains_text split_on
contains_text-split_on k String.[] String.[] h full e = cc
contains_text-split_on k String.[] (String.◌∷◌ d p) h full e = cc e
contains_text-split_on k (String.◌∷◌ c s) p h full e =
    elim (Bool-cases (starts_with (String.◌∷◌ c s) p)) [
      | inl here ↦
          any-head (split_on k (String.◌∷◌ c s)) p full
            (starts_with-head k (String.◌∷◌ c s) p h here)
      | inr later ↦
          let inside = contains_text-split_on k s p h full (ground arith) in
          elim (Bool-cases (nat_eq (code c) k)) [
            | inl cut ↦ rw cut (ground arith)
            | inr on ↦ rw on (any-first_part c (split_on k s) p inside)
          ]
    ]

module _ (f g : String → Bool) where
  all-neither :
      (ps : List String)
      → all (λ p. not (f p || g p)) ps ≡ true
      → (any f ps ≡ false) × (all (λ p. not (g p)) ps ≡ true)
  all-neither [] h = (refl, refl)
  all-neither (p ∷ ps) h = let rest = all-neither ps (ground arith) in (ground arith, ground arith)

  all-second : (ps : List String) → all (λ p. f p && g p) ps ≡ true → all g ps ≡ true
  all-second [] h = refl
  all-second (p ∷ ps) h = let rest = all-second ps (ground arith) in ground arith

-- The same for any of several marks.
unmarked_text :
    (ms : List String) (k : ℕ) (s : String)
    → All (λ m. Without k m × (is_empty m ≡ false)) ms
    → all (λ part. not (any (λ m. contains_text part m) ms)) (split_on k s) ≡ true
    → any (λ m. contains_text s m) ms ≡ false
unmarked_text [] k s h e = refl
unmarked_text (m ∷ ms) k s (hm, hs) e =
    let parts =
      all-neither (λ p. contains_text p m) (λ p. any (λ j. contains_text p j) ms) (split_on k s)
        e in
    let rest = unmarked_text ms k s hs parts.1 in
    elim (Bool-cases (contains_text s m)) [
      | inl here ↦ let inside = contains_text-split_on k s m hm.0 hm.1 here in cc (inside, parts.0)
      | inr gone ↦ rw gone rest
    ]

marks-Without : All (λ m. Without b'.' m × (is_empty m ≡ false)) credential_markers
unfolding any_char
marks-Without = (
  (refl, refl),
  (
    (refl, refl),
    (
      (refl, refl),
      (
        (refl, refl),
        ((refl, refl), ((refl, refl), ((refl, refl), ((refl, refl), ((refl, refl), tt))))),
      ),
    ),
  ),
)

-- A field that a client may filter or sort by is never one that is withheld as a credential.
pub field_is_allowed-not_credential :
    ⦃c : Casing⦄ (path : String) → field_is_allowed path ≡ true → is_credential_field path ≡ false
unfolding field_is_allowed is_credential_field is_marked segment_is_allowed
field_is_allowed-not_credential path h =
    unmarked_text credential_markers b'.' (to_lowercase path) marks-Without (
      all-second (λ p. not (is_empty p)) (λ p. not (is_marked p))
        (split_on b'.' (to_lowercase path)) (ground arith))
