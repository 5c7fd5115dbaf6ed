-- ===== src/Prelude/Texts.antt =====
-- Text, character by character: what the code does with `&str`.
use Prim.Native.Nat.{ℕ, ◌+◌, ◌/◌, ◌%◌}
use Prim.Native.Char.{Char, code}
use Prim.Native.String.{String, [], ◌∷◌}
use mathlib.Core.Path.{◌≡◌, refl, sym, ap₂}
use mathlib.Core.Bool.{Bool, true, false, ◌&&◌, ◌||◌}
use mathlib.Core.Option.{Option, none, some}
use text.Mathlib.Text.{◌==◌ as str_eq}
use mathlib.Core.List
use mathlib.Core.List.{List}
use native.Mathlib.Omega.{arith}
use text.Mathlib.TextEquality.{Char-path}
use isabelle_core.Prelude.Tests.{nat_eq, ltb, leb, if◌then◌else◌}

-- `s.is_empty()`
abbrev pub is_empty : String → Bool
is_empty [] = true
is_empty (c ∷ s) = false

-- `s.starts_with(p)`
abbrev pub starts_with : String → String → Bool
starts_with s [] = true
starts_with [] (c ∷ p) = false
starts_with (d ∷ s) (c ∷ p) = nat_eq (code d) (code c) && starts_with s p

-- `a + b`
unfoldable pub append : String → String → String
append [] t = t
append (c ∷ s) t = c ∷ append s t

-- `s.contains(p)`
unfoldable pub contains_text : String → String → Bool
contains_text [] p = starts_with [] p
contains_text (c ∷ s) p = starts_with (c ∷ s) p || contains_text s p

-- `s.chars().any(p)`, on code points
unfoldable pub any_char : (ℕ → Bool) → String → Bool
any_char p [] = false
any_char p (c ∷ s) = p (code c) || any_char p s

-- `s.ends_with(c)` for a character
unfoldable pub ends_with_char : String → ℕ → Bool
ends_with_char [] k = false
ends_with_char (c ∷ []) k = nat_eq (code c) k
ends_with_char (c ∷ d ∷ s) k = ends_with_char (d ∷ s) k

-- `s.split(c)` for a character
unfoldable pub first_part : Char → List String → List String
first_part c List.[] = List.◌∷◌ (c ∷ []) List.[]
first_part c (List.◌∷◌ p ps) = List.◌∷◌ (c ∷ p) ps

unfoldable pub split_on : ℕ → String → List String
split_on k [] = List.◌∷◌ [] List.[]
split_on k (c ∷ s) =
    let rest = split_on k s in if nat_eq (code c) k then List.◌∷◌ [] rest else first_part c rest

-- `char::is_whitespace` (`White_Space`) and `char::is_control` (`Cc`)
unfoldable pub is_whitespace : ℕ → Bool
is_whitespace c =
    leb 0x09 c && leb c 0x0D
    || nat_eq c 0x20
    || nat_eq c 0x85
    || nat_eq c 0xA0
    || nat_eq c 0x1680
    || leb 0x2000 c && leb c 0x200A
    || nat_eq c 0x2028
    || nat_eq c 0x2029
    || nat_eq c 0x202F
    || nat_eq c 0x205F
    || nat_eq c 0x3000

unfoldable pub is_control : ℕ → Bool
is_control c = leb c 0x1F || leb 0x7F c && leb c 0x9F

-- `s.trim()`
unfoldable pub trim_start : String → String
unfolding is_whitespace
trim_start [] = []
trim_start (c ∷ s) = let rest = trim_start s in if is_whitespace (code c) then rest else c ∷ s

unfoldable pub trim_end : String → String
unfolding is_whitespace
trim_end [] = []
trim_end (c ∷ s) =
    let rest = trim_end s in if is_whitespace (code c) && is_empty rest then [] else c ∷ rest

unfoldable pub trim : String → String
unfolding trim_start trim_end
trim s = trim_end (trim_start s)

-- `s.to_ascii_lowercase()` and `a.eq_ignore_ascii_case(b)`
abbrev letter_in : String → String → Char → Char
letter_in (u ∷ us) (l ∷ ls) c =
    let rest = letter_in us ls c in if nat_eq (code c) (code u) then l else rest
letter_in _ _ c = c

unfoldable pub to_ascii_lowercase : String → String
to_ascii_lowercase [] = []
to_ascii_lowercase (c ∷ s) =
    letter_in "ABCDEFGHIJKLMNOPQRSTUVWXYZ" "abcdefghijklmnopqrstuvwxyz" c ∷ to_ascii_lowercase s

unfoldable pub eq_ignore_ascii_case : String → String → Bool
eq_ignore_ascii_case s t = str_eq (to_ascii_lowercase s) (to_ascii_lowercase t)

-- `s.rsplit_once(c)`, the cut at the last `c`
abbrev cut_before : Char → ℕ → String → Option (String × String) → Option (String × String)
cut_before c k s (some (a, b)) = some (c ∷ a, b)
cut_before c k s none = if nat_eq (code c) k then some ("", s) else none

unfoldable pub rsplit_once : ℕ → String → Option (String × String)
rsplit_once k [] = none
rsplit_once k (c ∷ s) = cut_before c k s (rsplit_once k s)

abbrev after_first : Char → Option (String × String) → Option (String × String)
after_first c none = none
after_first c (some (a, b)) = some (c ∷ a, b)

append-full : (p s : String) → is_empty s ≡ false → is_empty (append p s) ≡ false
unfolding append
append-full [] s full = full
append-full (c ∷ p) s full = refl

-- `s.split_once(c)`, the cut at the first `c`
unfoldable pub split_once : ℕ → String → Option (String × String)
split_once k [] = none
split_once k (c ∷ s) =
    let rest = split_once k s in if nat_eq (code c) k then some ("", s) else after_first c rest

pub split_once-append :
    (k : ℕ) (p : String) (c : Char) (s : String)
    → any_char (λ n. nat_eq n k) p ≡ false
    → nat_eq (code c) k ≡ true
    → split_once k (append p (c ∷ s)) ≡ some (p, s)
unfolding split_once any_char append
split_once-append k [] c s free at = rw at refl
split_once-append k (d ∷ p) c s free at =
    let other : nat_eq (code d) k ≡ false = ground arith in
    rw (other, split_once-append k p c s (ground arith) at) refl

-- `s.strip_prefix(p)`
unfoldable pub strip_prefix : String → String → Option String
strip_prefix s [] = some s
strip_prefix [] (c ∷ p) = none
strip_prefix (d ∷ s) (c ∷ p) =
    let rest = strip_prefix s p in if nat_eq (code d) (code c) then rest else none

-- What ends without white space keeps its end, whatever stands before it.
pub trim_end-append :
    (p s : String) → is_empty (trim_end s) ≡ false → trim_end (append p s) ≡ append p (trim_end s)
unfolding trim_end append
trim_end-append [] s full = refl
trim_end-append (c ∷ p) s full =
    let kept : is_empty (append p (trim_end s)) ≡ false = append-full p (trim_end s) full in
    rw (trim_end-append p s full) (ground arith)

-- `s.trim_start_matches(c)` and `s.trim_end_matches(c)` for a character
unfoldable pub trim_start_matches : ℕ → String → String
trim_start_matches k [] = []
trim_start_matches k (c ∷ s) =
    let rest = trim_start_matches k s in if nat_eq (code c) k then rest else c ∷ s

unfoldable pub trim_end_matches : ℕ → String → String
trim_end_matches k [] = []
trim_end_matches k (c ∷ s) =
    let rest = trim_end_matches k s in if nat_eq (code c) k && is_empty rest then [] else c ∷ rest

-- `s.ends_with(p)`
unfoldable pub ends_with : String → String → Bool
ends_with [] p = is_empty p
ends_with (c ∷ s) p = str_eq (c ∷ s) p || ends_with s p

-- `s.split(p)` for a test on characters
unfoldable pub split_when : (ℕ → Bool) → String → List String
split_when p [] = List.◌∷◌ [] List.[]
split_when p (c ∷ s) =
    let rest = split_when p s in if p (code c) then List.◌∷◌ [] rest else first_part c rest

-- `a <= b` on texts: code points in order, which is the order of their UTF-8 bytes.
unfoldable pub text_leb : String → String → Bool
text_leb [] t = true
text_leb (c ∷ s) [] = false
text_leb (c ∷ s) (d ∷ t) =
    let rest = text_leb s t in
    if ltb (code c) (code d) then true else nat_eq (code c) (code d) && rest

pub text_leb-total : (s t : String) → text_leb s t ≡ false → text_leb t s ≡ true
unfolding text_leb
text_leb-total [] t h = ground arith
text_leb-total (c ∷ s) [] h = refl
text_leb-total (c ∷ s) (d ∷ t) h = ground (arith, text_leb-total s t)

pub text_leb_trans :
    (s t u : String) → text_leb s t ≡ true → text_leb t u ≡ true → text_leb s u ≡ true
unfolding text_leb
text_leb_trans [] t u h k = refl
text_leb_trans (c ∷ s) [] u h k = ground arith
text_leb_trans (c ∷ s) (d ∷ t) [] h k = ground arith
text_leb_trans (c ∷ s) (d ∷ t) (e ∷ u) h k = ground (arith, text_leb_trans s t u)

-- The UTF-8 bytes of a character, and `s.as_bytes()`.
unfoldable pub utf8 : ℕ → List ℕ
utf8 c =
    if ltb c 0x80
    then List.◌∷◌ c List.[]
    else if ltb c 0x800
    then List.◌∷◌ (0xC0 + c / 64) (List.◌∷◌ (0x80 + c % 64) List.[])
    else if ltb c 0x10000
    then List.◌∷◌ (0xE0 + c / 4096)
        (List.◌∷◌ (0x80 + c / 64 % 64) (List.◌∷◌ (0x80 + c % 64) List.[]))
    else List.◌∷◌ (0xF0 + c / 262144) (
        List.◌∷◌ (0x80 + c / 4096 % 64)
          (List.◌∷◌ (0x80 + c / 64 % 64) (List.◌∷◌ (0x80 + c % 64) List.[])))

unfoldable pub as_bytes : String → List ℕ
unfolding utf8
as_bytes [] = List.[]
as_bytes (c ∷ s) = List.◌++◌ (utf8 (code c)) (as_bytes s)

-- UTF-8 is prefix-free, so texts with the same bytes are the same text.
utf8_cancel :
    (c d : ℕ) (s t : List ℕ) → List.◌++◌ (utf8 c) s ≡ List.◌++◌ (utf8 d) t → (c ≡ d) × (s ≡ t)
unfolding utf8
utf8_cancel c d s t e = ground arith

utf8-ne-nil : (c : ℕ) (s : List ℕ) → ¬ (List.◌++◌ (utf8 c) s ≡ List.[])
unfolding utf8
utf8-ne-nil c s e = ground arith

pub as_bytes_injective : (s t : String) → as_bytes s ≡ as_bytes t → s ≡ t
unfolding as_bytes
as_bytes_injective [] [] e = refl
as_bytes_injective [] (d ∷ t) e = absurd (utf8-ne-nil (code d) (as_bytes t) (sym e))
as_bytes_injective (c ∷ s) [] e = absurd (utf8-ne-nil (code c) (as_bytes s) e)
as_bytes_injective (c ∷ s) (d ∷ t) e =
    let (here, rest) = utf8_cancel (code c) (code d) (as_bytes s) (as_bytes t) e in
    ap₂ {C = String} (λ x y. x ∷ y) (Char-path c d here) (as_bytes_injective s t rest)

-- Rust's Unicode case mapping, which this library does not define.
pub record Casing : Type 0 where
  pub to_lowercase : String → String

abbrev pub to_lowercase : ⦃c : Casing⦄ → String → String
to_lowercase ⦃c⦄ = c.to_lowercase
