-- ===== src/Util/Multipart/Bounded.antt =====
-- What src/util/multipart.rs reads is what was sent, whole and within the limits.
use mathlib.Core.List.{append-nil, append_assoc}
use isabelle_core.Prelude.{
  ltb, leb, if◌then◌else◌, Bool-cases, nat_Eq, string_Eq, length, length-append, ℕ, ◌+◌, ◌≤◌, ◌<◌,
  ◌≡◌, refl, sym, ap, ◌∙◌, ◌↔◌, inl, inr, Option, none, some, List, [], ◌∷◌, ◌++◌, arith,
}
use isabelle_core.Util.Multipart.{
  Limits, read, not_read, Event, chunk, broken, stuck, Timed, finished, never, with_deadline,
  read_chunks, read_body,
}

-- The bytes of a stream that ends, and the time that it takes; `none` if it breaks or hangs.
abbrev pub later : ℕ → List ℕ → Option (ℕ × List ℕ) → Option (ℕ × List ℕ)
later wait bytes none = none
later wait bytes (some (at, rest)) = some (wait + at, bytes ++ rest)

unfoldable pub whole : List Event → Option (ℕ × List ℕ)
whole [] = some (0, [])
whole (stuck ∷ es) = none
whole (broken wait ∷ es) = none
whole (chunk wait bytes ∷ es) = later wait bytes (whole es)

-- The stream ends in time, with these bytes, and they are not more than allowed.
abbrev pub Fits : Limits → List Event → List ℕ → Type 0
Fits limits es body =
    (at : ℕ) × ((whole es ≡ some (at, body))
      × (at ≤ limits.deadline)
      × (length body ≤ limits.max_bytes))

-- The reader comes to these bytes at this time.
unfoldable pub reaches : Timed (List ℕ) → Option (ℕ × List ℕ)
reaches never = none
reaches (finished at (read body)) = some (at, body)
reaches (finished at (not_read e)) = none

-- The bytes are passed on if they are within the limit.
unfoldable pub within : ℕ → ℕ → List ℕ → Option (ℕ × List ℕ) → Option (ℕ × List ℕ)
within max_bytes at body none = none
within max_bytes at body (some (more, rest)) =
    if leb (length (body ++ rest)) max_bytes then some (at + more, body ++ rest) else none

within-later :
    (max_bytes wait at : ℕ) (bytes body : List ℕ) (o : Option (ℕ × List ℕ))
    → within max_bytes (at + wait) (body ++ bytes) o ≡ within max_bytes at body (later wait bytes o)
unfolding within
within-later max_bytes wait at bytes body none = refl
within-later max_bytes wait at bytes body (some (more, rest)) =
    let same : (body ++ bytes) ++ rest ≡ body ++ (bytes ++ rest) = append_assoc body bytes rest in
    let time : at + wait + more ≡ at + (wait + more) = omega arith in rw (same, time) refl

-- Once the limit is passed, no end of the stream is within it.
too_long :
    (max_bytes wait at : ℕ) (bytes body : List ℕ) (o : Option (ℕ × List ℕ))
    → max_bytes < length body + length bytes
    → within max_bytes at body (later wait bytes o) ≡ none
unfolding within
too_long max_bytes wait at bytes body none over = refl
too_long max_bytes wait at bytes body (some (more, rest)) over =
    let sum : length (body ++ (bytes ++ rest)) ≡ length body + (length bytes + length rest) =
      length-append body (bytes ++ rest) ∙ ap (λ n. length body + n) (length-append bytes rest) in
    ground (arith, sum)

reaches-read_chunks :
    (max_bytes : ℕ) (es : List Event) (at : ℕ) (body : List ℕ)
    → length body ≤ max_bytes
    → reaches (read_chunks max_bytes es at body) ≡ within max_bytes at body (whole es)
unfolding reaches read_chunks within whole
reaches-read_chunks max_bytes [] at body fits =
    let all_of : body ++ [] ≡ body = append-nil body in
    let now : at + 0 ≡ at = omega arith in rw (all_of, now) (ground arith)
reaches-read_chunks max_bytes (stuck ∷ es) at body fits = refl
reaches-read_chunks max_bytes (broken wait ∷ es) at body fits = refl
reaches-read_chunks max_bytes (chunk wait bytes ∷ es) at body fits =
    let sum : length (body ++ bytes) ≡ length body + length bytes = length-append body bytes in
    elim (Bool-cases (ltb max_bytes (length body + length bytes))) [
      | inl over ↦ rw over (sym (too_long max_bytes wait at bytes body (whole es) (ground arith)))
      | inr room ↦ rw room (
          reaches-read_chunks max_bytes es (at + wait) (body ++ bytes) (ground (arith, sum))
          ∙ within-later max_bytes wait at bytes body (whole es))
    ]

with_deadline_iff :
    (limits : Limits) (t : Timed (List ℕ)) (body : List ℕ)
    → (with_deadline limits t ≡ read body)
      ↔ ((at : ℕ) × ((reaches t ≡ some (at, body)) × (at ≤ limits.deadline)))
unfolding with_deadline reaches
with_deadline_iff limits never body = (λ h. ground arith, λ h. ground (arith, h.1.0))
with_deadline_iff limits (finished at (not_read e)) body =
    (λ h. ground arith, λ h. ground (arith, h.1.0))
with_deadline_iff limits (finished at (read got)) body = (
  λ h. (at, (ground arith, ground arith)),
  λ h. let (moment, (same, in_time)) = h in ground arith,
)

within_iff :
    (max_bytes at : ℕ) (body : List ℕ) (o : Option (ℕ × List ℕ))
    → (within max_bytes 0 [] o ≡ some (at, body))
      ↔ ((o ≡ some (at, body)) × (length body ≤ max_bytes))
unfolding within
within_iff max_bytes at body none = (λ h. ground arith, λ h. ground (arith, h.0))
within_iff max_bytes at body (some (more, rest)) =
    let now : 0 + more ≡ more = omega arith in
    rw now (λ h. (ground arith, ground arith), λ h. let (same, fits) = h in ground arith)

-- A body is read as these bytes exactly when the stream ends before the deadline, yields these
-- bytes in this order, and they are not more than the limit allows.
pub read_body_iff :
    (payload : List Event) (limits : Limits) (body : List ℕ)
    → (read_body payload limits ≡ read body) ↔ Fits limits payload body
unfolding read_body
read_body_iff payload limits body =
    let arrives = reaches-read_chunks limits.max_bytes payload 0 [] (omega arith) in
    let in_time = with_deadline_iff limits (read_chunks limits.max_bytes payload 0 []) body in
    (
      λ h.
          let (at, (there, soon)) = in_time.0 h in
          let (ends, fits) =
            (within_iff limits.max_bytes at body (whole payload)).0 (sym arrives ∙ there) in
          (at, (ends, soon, fits)),
      λ h.
          let (at, (ends, soon, fits)) = h in
          in_time.1 (
            at,
            (arrives ∙ (within_iff limits.max_bytes at body (whole payload)).1 (ends, fits), soon),
          ),
    )
