-- ===== src/Server/ListFilter/Redaction.antt =====
-- src/server/list_filter.rs: what `redact_credentials` leaves of a record.
use isabelle_core.Prelude.{
  if◌then◌else◌, Bool-cases, ◌==◌, nat_Eq, string_Eq, Map, lookup, retain, Casing, String, ◌≡◌,
  refl, ap, ◌∙◌, inl, inr, Bool, not, none, [], ◌∷◌, arith,
}
use isabelle_core.Item.{Item}
use isabelle_core.Server.ListFilter.{is_credential_field, redact_credentials}

-- `retain` on a test of the key.
pub lookup-retain_key {ℓ} :
    {V : Type ℓ} (p : String → Bool) (k : String) (m : Map String V)
    → lookup k (retain (λ j _. p j) m) ≡ (if p k then lookup k m else none)
unfolding lookup retain
lookup-retain_key p k [] = ground arith
lookup-retain_key p k ((j, v) ∷ m) =
    let rest = lookup-retain_key p k m in
    elim (Bool-cases (j == k)) [
      | inl same ↦
          let kept : p j ≡ p k = ap p ((string_Eq.beq_iff j k).0 same) in
          elim (Bool-cases (p k)) [
            | inl e ↦ rw (kept, e, same) (ground arith)
            | inr e ↦ rw (kept, e) (rest ∙ rw e refl)
          ]
      | inr other ↦ elim (Bool-cases (p j)) [
        | inl e ↦ rw (e, other) rest
        | inr e ↦ rw (e, other) rest
      ]
    ]

-- A credential is gone from a map, and any other field is as it was.
abbrev pub Redacted {ℓ} : ⦃c : Casing⦄ {V : Type ℓ} → Map String V → Map String V → Type ℓ
Redacted before after =
    (k : String) → lookup k after ≡ (if is_credential_field k then none else lookup k before)

redacted {ℓ} :
    ⦃c : Casing⦄ {V : Type ℓ} (m : Map String V)
    → Redacted m (retain (λ k _. not (is_credential_field k)) m)
redacted m k = lookup-retain_key (λ j. not (is_credential_field j)) k m ∙ ground arith

-- Redaction takes exactly the credentials out of every map of a record, and keeps its id.
pub redact_credentials-Redacted :
    ⦃c : Casing⦄ (itm : Item)
    → ((redact_credentials itm).id ≡ itm.id)
      × Redacted itm.strs (redact_credentials itm).strs
      × Redacted itm.strstrs (redact_credentials itm).strstrs
      × Redacted itm.strids (redact_credentials itm).strids
      × Redacted itm.bools (redact_credentials itm).bools
      × Redacted itm.u64s (redact_credentials itm).u64s
      × Redacted itm.ids (redact_credentials itm).ids
unfolding redact_credentials
redact_credentials-Redacted itm = (
  refl,
  redacted itm.strs,
  redacted itm.strstrs,
  redacted itm.strids,
  redacted itm.bools,
  redacted itm.u64s,
  redacted itm.ids,
)
