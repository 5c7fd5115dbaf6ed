-- ===== src/Util/Oidc/Identities.antt =====
-- src/util/oidc.rs: what an identity that is accepted rests on.
use isabelle_core.Prelude.{
  Bool-cases, Option-cases, ◌>>=◌, ◌==◌, nat_Eq, string_Eq, any, lookup, is_empty, trim, Casing,
  to_lowercase, to_lowercase, ℕ, ◌-◌, ◌<◌, String, ◌≡◌, refl, sym, ◌∙◌, subst, ◌⊎◌, inl, inr, Bool,
  true, false, Option, none, some, get_or, List, arith, eq_iff,
}
use isabelle_core.Util.Oidc.{Provider, ProviderConfig, jwks_uri, Jwk, WebApi}
use isabelle_core.Util.Oidc.Tokens.{
  Header, IdTokenClaims, JwtApi, Identity, claimed_verified, id_token_validation, find_key,
  decoding_key, identity_of, check_id_token, KeyCache, jwks_cache_for, cached_keys, fetch_keys,
  signing_keys, renewed, keys_for, verify_headed, verify_id_token,
}

-- The provider publishes the keys now, or they were fetched from it less than an hour ago.
abbrev pub IsPublished : ⦃web : WebApi⦄ → KeyCache → Provider → ℕ → List Jwk → Type 0
IsPublished ⦃web⦄ cache provider now keys =
    (web.get_keys (jwks_uri provider) ≡ some keys)
    ⊎ ((fetched : ℕ) × (lookup (jwks_uri provider) cache ≡ some (keys, fetched))
        × (now - fetched < jwks_cache_for))

-- The token decodes with a key that the provider publishes under the name that the token gives, when
-- it is validated for this client and this provider; it answers this sign-in and names a subject.
pub record IsVouched ⦃web : WebApi⦄ ⦃jwt : JwtApi⦄ ⦃c : Casing⦄ (cache : KeyCache)
    (provider : Provider) (cfg : ProviderConfig) (token nonce : String) (now : ℕ) (i : Identity)
    : Type 0 where
  pub header : Header
  pub keys : List Jwk
  pub jwk : Jwk
  pub key : jwt.Key
  pub claims : IdTokenClaims
  pub is_token : jwt.decode_header token ≡ some header
  pub is_published : IsPublished cache provider now keys
  pub is_named : find_key (get_or header.kid "") keys ≡ some jwk
  pub is_usable : decoding_key jwk ≡ some key
  pub is_signed : jwt.decode token key (id_token_validation provider cfg header.alg) ≡ some claims
  pub answers : claims.nonce ≡ nonce
  pub has_subject : is_empty (trim claims.sub) ≡ false
  pub is_identity : i ≡ record {
    subject = claims.sub;
    email = to_lowercase (trim claims.email);
    email_verified = claimed_verified claims.email_verified;
    name = claims.name;
  }

module _ ⦃web : WebApi⦄ where
  fetch_keys-IsPublished :
      (cache old : KeyCache) (provider : Provider) (now : ℕ) (keys : List Jwk)
      → (fetch_keys cache (jwks_uri provider) now).1 ≡ some keys
      → IsPublished old provider now keys
  unfolding fetch_keys
  fetch_keys-IsPublished cache old provider now keys e =
      elim (Option-cases (web.get_keys (jwks_uri provider))) [
        | inl down ↦ absurd (ground arith)
        | inr (ks, up) ↦ inl (ground arith)
      ]

  cached_keys-IsPublished :
      (cache : KeyCache) (provider : Provider) (now : ℕ) (keys : List Jwk)
      → cached_keys (lookup (jwks_uri provider) cache) now ≡ some keys
      → IsPublished cache provider now keys
  unfolding cached_keys
  cached_keys-IsPublished cache provider now keys e =
      elim (Option-cases (lookup (jwks_uri provider) cache)) [
        | inl missing ↦ absurd (ground arith)
        | inr ((ks, fetched), kept) ↦ inr (fetched, ground arith, ground arith)
      ]

  signing_keys-IsPublished :
      (cache old : KeyCache) (provider : Provider) (force : Bool) (now : ℕ) (keys : List Jwk)
      → (force ≡ true) ⊎ (cache ≡ old)
      → (signing_keys cache provider force now).1 ≡ some keys
      → IsPublished old provider now keys
  unfolding signing_keys
  signing_keys-IsPublished cache old provider true now keys h e =
      fetch_keys-IsPublished cache old provider now keys e
  signing_keys-IsPublished cache old provider false now keys (inl h) e = cc h
  signing_keys-IsPublished cache old provider false now keys (inr h) e =
      elim (Option-cases (cached_keys (lookup (jwks_uri provider) cache) now)) [
        | inl stale ↦ fetch_keys-IsPublished cache old provider now keys (sym (rw stale refl) ∙ e)
        | inr (ks, fresh) ↦
            subst (λ c. IsPublished c provider now keys) h
              (cached_keys-IsPublished cache provider now keys (fresh ∙ sym (rw fresh refl) ∙ e))
      ]

  renewed-IsPublished :
      (old : KeyCache) (provider : Provider) (kid : String) (now : ℕ) (keys : List Jwk)
      (first : KeyCache × Option (List Jwk))
      → ((ks : List Jwk) → first.1 ≡ some ks → IsPublished old provider now ks)
      → (renewed provider kid now first).1 ≡ some keys
      → IsPublished old provider now keys
  unfolding renewed
  renewed-IsPublished old provider kid now keys (cache, none) h e = cc e
  renewed-IsPublished old provider kid now keys (cache, some ks) h e =
      elim (Bool-cases (any (λ k. k.kid == kid) ks)) [
        | inl known ↦ h keys (sym (rw known refl) ∙ e)
        | inr new ↦
            signing_keys-IsPublished cache old provider true now keys (inl refl)
              (sym (rw new refl) ∙ e)
      ]

  keys_for-IsPublished :
      (cache : KeyCache) (provider : Provider) (kid : String) (now : ℕ) (keys : List Jwk)
      → (keys_for cache provider kid now).1 ≡ some keys
      → IsPublished cache provider now keys
  unfolding keys_for
  keys_for-IsPublished cache provider kid now keys e =
      renewed-IsPublished cache provider kid now keys (signing_keys cache provider false now)
        (λ ks. signing_keys-IsPublished cache cache provider false now ks (inr refl)) e

identity_of-cases :
    ⦃c : Casing⦄ (claims : IdTokenClaims) (nonce : String) (i : Identity)
    → identity_of claims nonce ≡ some i
    → (claims.nonce ≡ nonce)
      × (is_empty (trim claims.sub) ≡ false)
      × (i ≡ record {
        subject = claims.sub;
        email = to_lowercase (trim claims.email);
        email_verified = claimed_verified claims.email_verified;
        name = claims.name;
      })
unfolding identity_of
identity_of-cases claims nonce i e =
    (ground (arith, eq_iff claims.nonce nonce), ground arith, ground arith)

pub bind-some {ℓ κ} :
    {A : Type ℓ} {B : Type κ} (o : Option A) (f : A → Option B) (b : B)
    → (o >>= f) ≡ some b
    → (a : A) × (o ≡ some a) × (f a ≡ some b)
bind-some none f b e = absurd (ground arith)
bind-some (some a) f b e = (a, refl, e)

verify_headed-IsVouched :
    ⦃web : WebApi⦄ ⦃jwt : JwtApi⦄ ⦃c : Casing⦄ (cache : KeyCache) (provider : Provider)
    (cfg : ProviderConfig) (token nonce : String) (now : ℕ) (i : Identity) (h : Option Header)
    → jwt.decode_header token ≡ h
    → (verify_headed cache provider cfg token nonce now h).1 ≡ some i
    → IsVouched cache provider cfg token nonce now i
unfolding verify_headed check_id_token
verify_headed-IsVouched cache provider cfg token nonce now i none is e = cc e
verify_headed-IsVouched ⦃web⦄ ⦃jwt⦄ cache provider cfg token nonce now i (some header) is e =
    let kid = get_or header.kid "" in
    let validation = id_token_validation provider cfg header.alg in
    let (keys, found, checked) = bind-some (keys_for cache provider kid now).1 _ i e in
    let (jwk, named, rest) = bind-some (find_key kid keys) _ i checked in
    let (key, usable, more) = bind-some (decoding_key jwk) _ i rest in
    let (claims, signed, last) = bind-some (jwt.decode token key validation) _ i more in
    let facts = identity_of-cases claims nonce i last in
    record {
      header = header;
      keys = keys;
      jwk = jwk;
      key = key;
      claims = claims;
      is_token = is;
      is_published = keys_for-IsPublished cache provider kid now keys found;
      is_named = named;
      is_usable = usable;
      is_signed = signed;
      answers = facts.0;
      has_subject = facts.1;
      is_identity = facts.2;
    }

-- An identity that is accepted is the one that a token names which decodes with a key that the
-- provider publishes, or that was fetched from it less than an hour ago, when it is validated for
-- this client and this provider, and which carries the nonce of this sign-in.
pub verify_id_token-IsVouched :
    ⦃web : WebApi⦄ ⦃jwt : JwtApi⦄ ⦃c : Casing⦄ (cache : KeyCache) (provider : Provider)
    (cfg : ProviderConfig) (token nonce : String) (now : ℕ) (i : Identity)
    → (verify_id_token cache provider cfg token nonce now).1 ≡ some i
    → IsVouched cache provider cfg token nonce now i
unfolding verify_id_token
verify_id_token-IsVouched ⦃web⦄ ⦃jwt⦄ cache provider cfg token nonce now i e =
    verify_headed-IsVouched cache provider cfg token nonce now i (jwt.decode_header token) refl e
