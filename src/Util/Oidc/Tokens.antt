-- ===== src/Util/Oidc/Tokens.antt =====
-- src/util/oidc.rs: from a code to an identity. The code is traded for an identity token, and the
-- token is checked with a key that the provider publishes.
use isabelle_core.Prelude.{
  ltb, leb, if◌then◌else◌, ◌>>=◌, ◌==◌, nat_Eq, string_Eq, any, Map, lookup, insert, is_empty, trim,
  Casing, to_lowercase, to_lowercase, ℕ, ◌+◌, ◌-◌, String, Bool, true, false, ◌&&◌, not, Option,
  none, some, get_or, List, [], ◌∷◌,
}
use isabelle_core.Util.Oidc.{
  Provider, google, apple, ProviderConfig, issuer, token_endpoint, jwks_uri, uses_pkce, Jwk, WebApi,
}

-- The claims that Apple signs in place of a client secret.
pub record AppleSecretClaims : Type 0 where
  pub iss : String
  pub iat : ℕ
  pub exp : ℕ
  pub aud : String
  pub sub : String

pub record Header : Type 0 where
  pub alg : String
  pub kid : Option String

-- `email_verified` as it comes: a Boolean from Google, a text from Apple.
pub data Claimed : Type 0 where
  flag : Bool → Claimed
  written : String → Claimed
  other : Claimed

pub record IdTokenClaims : Type 0 where
  pub sub : String
  pub email : String
  pub email_verified : Option Claimed
  pub name : String
  pub nonce : String

-- What a token has to satisfy: the algorithm it names, the audience, the issuer, an expiry that is
-- not past, and the claims that may not be missing.
pub record Validation : Type 0 where
  pub alg : String
  pub audience : List String
  pub issuers : List String
  pub validate_exp : Bool
  pub required : List String

-- The crate `jsonwebtoken`. `Key` is a key to check a signature with.
pub record JwtApi : Type 1 where
  pub Key : Type 0
  pub from_rsa_components : String → String → Option Key
  pub from_ec_components : String → String → Option Key
  pub encode_es256 : String → AppleSecretClaims → String → Option String
  pub decode_header : String → Option Header
  pub decode : String → Key → Validation → Option IdTokenClaims

-- Who the provider says this is.
pub record Identity : Type 0 where
  pub subject : String
  pub email : String
  pub email_verified : Bool
  pub name : String

unfoldable pub claimed_verified : Option Claimed → Bool
claimed_verified (some (flag b)) = b
claimed_verified (some (written s)) = s == "true"
claimed_verified _ = false

unfoldable pub id_token_validation : Provider → ProviderConfig → String → Validation
id_token_validation provider cfg alg = record {
  alg = alg;
  audience = trim cfg.client_id ∷ [];
  issuers = issuer provider ∷ [];
  validate_exp = true;
  required = "exp" ∷ "aud" ∷ "iss" ∷ "sub" ∷ [];
}

unfoldable pub find_key : String → List Jwk → Option Jwk
find_key kid [] = none
find_key kid (k ∷ keys) = if k.kid == kid then some k else find_key kid keys

unfoldable pub identity_of : ⦃c : Casing⦄ → IdTokenClaims → String → Option Identity
unfolding claimed_verified
identity_of claims nonce =
    if not (claims.nonce == nonce)
    then none
    else if is_empty (trim claims.sub)
    then none
    else some (record {
      subject = claims.sub;
      email = to_lowercase (trim claims.email);
      email_verified = claimed_verified claims.email_verified;
      name = claims.name;
    })

module _ ⦃jwt : JwtApi⦄ where
  unfoldable pub client_secret : Provider → ProviderConfig → ℕ → Option String
  client_secret google cfg now = some cfg.client_secret
  client_secret apple cfg now =
      jwt.encode_es256 (trim cfg.key_id)
        (record {
          iss = trim cfg.team_id;
          iat = now;
          exp = now + 300;
          aud = issuer apple;
          sub = trim cfg.client_id;
        })
        (trim cfg.private_key)

  unfoldable pub decoding_key : Jwk → Option jwt.Key
  decoding_key k =
      if k.kty == "RSA"
      then jwt.from_rsa_components k.n k.e
      else if k.kty == "EC"
      then jwt.from_ec_components k.x k.y
      else none

  unfoldable pub check_id_token :
      ⦃c : Casing⦄ → String → String → String → Validation → List Jwk → Option Identity
  unfolding find_key decoding_key identity_of
  check_id_token id_token nonce kid validation keys = do
    k ← find_key kid keys
    key ← decoding_key k
    claims ← jwt.decode id_token key validation
    identity_of claims nonce

module _ ⦃web : WebApi⦄ where
  unfoldable pub token_in : Option (ℕ × String) → Option String
  token_in none = none
  token_in (some (status, body)) =
      if leb 200 status && ltb status 300
      then elim (web.read_token body) [
        | none ↦ none
        | some token ↦ if is_empty token then none else some token
      ]
      else none

  -- Trade the authorization code for the identity token.
  unfoldable pub exchange_code :
      ⦃jwt : JwtApi⦄ → Provider → ProviderConfig → String → String → String → ℕ → Option String
  unfolding client_secret token_in
  exchange_code provider cfg redirect_uri code pkce_verifier now = do
    secret ← client_secret provider cfg now
    token_in (
        web.post_form (token_endpoint provider) (
          ("grant_type", "authorization_code")
          ∷ ("code", code)
          ∷ ("redirect_uri", redirect_uri)
          ∷ ("client_id", trim cfg.client_id)
          ∷ ("client_secret", secret)
          ∷ (if uses_pkce provider then ("code_verifier", pkce_verifier) ∷ [] else [])))

-- The keys that were fetched, by the address they came from, with the second they came in.
abbrev pub KeyCache : Type 0
KeyCache = Map String (List Jwk × ℕ)

abbrev pub jwks_cache_for : ℕ
jwks_cache_for = 3600

unfoldable pub cached_keys : Option (List Jwk × ℕ) → ℕ → Option (List Jwk)
cached_keys none now = none
cached_keys (some (keys, fetched)) now =
    if ltb (now - fetched) jwks_cache_for then some keys else none

module _ ⦃web : WebApi⦄ where
  unfoldable pub fetch_keys : KeyCache → String → ℕ → KeyCache × Option (List Jwk)
  fetch_keys cache uri now = elim (web.get_keys uri) [
    | none ↦ (cache, none)
    | some keys ↦ (insert uri (keys, now) cache, some keys)
  ]

  unfoldable pub signing_keys : KeyCache → Provider → Bool → ℕ → KeyCache × Option (List Jwk)
  unfolding cached_keys fetch_keys
  signing_keys cache provider force now =
      if force
      then fetch_keys cache (jwks_uri provider) now
      else elim (cached_keys (lookup (jwks_uri provider) cache) now) [
        | some keys ↦ (cache, some keys)
        | none ↦ fetch_keys cache (jwks_uri provider) now
      ]

  -- Fetched again if the keys in hand do not have `kid`.
  unfoldable pub renewed :
      Provider → String → ℕ → KeyCache × Option (List Jwk) → KeyCache × Option (List Jwk)
  unfolding signing_keys
  renewed provider kid now (cache, none) = (cache, none)
  renewed provider kid now (cache, some keys) =
      if any (λ k. k.kid == kid) keys
      then (cache, some keys)
      else signing_keys cache provider true now

  unfoldable pub keys_for : KeyCache → Provider → String → ℕ → KeyCache × Option (List Jwk)
  unfolding renewed
  keys_for cache provider kid now = renewed provider kid now (signing_keys cache provider false now)

  unfoldable pub verify_headed :
      ⦃jwt : JwtApi⦄ ⦃c : Casing⦄
      → KeyCache
      → Provider
      → ProviderConfig
      → String
      → String
      → ℕ
      → Option Header
      → KeyCache × Option Identity
  unfolding keys_for id_token_validation check_id_token
  verify_headed cache provider cfg id_token nonce now none = (cache, none)
  verify_headed cache provider cfg id_token nonce now (some header) =
      let kid = get_or header.kid "" in
      let found = keys_for cache provider kid now in
      (
        found.0,
        found.1 >>= check_id_token id_token nonce kid (id_token_validation provider cfg header.alg),
      )

  unfoldable pub verify_id_token :
      ⦃jwt : JwtApi⦄ ⦃c : Casing⦄
      → KeyCache
      → Provider
      → ProviderConfig
      → String
      → String
      → ℕ
      → KeyCache × Option Identity
  unfolding verify_headed
  verify_id_token ⦃jwt⦄ cache provider cfg id_token nonce now =
      verify_headed cache provider cfg id_token nonce now (jwt.decode_header id_token)
