-- ===== src/OAuth/Service.antt =====
-- The types of services/server/src/oauth/service.ts and its resource check. Hashes, the URL parser
-- and the client resolver are the fields of `Env`; random values are arguments of the methods.
-- An error keeps its code and its status; its description is left out.
pub mod Monad
pub mod Consent
pub mod Grant
use chief_everything_officer.Base.{
  ℕ, String, Bool, true, false, not, Option, none, some, List, [], ◌∷◌, ◌&&◌, ◌||◌, ◌==◌, leb,
  nat_eq, is_none, is_some, ◌≡◌, ◌⊎◌, inl, inr, refl, if◌then◌else◌, ◌+◌, ◌/◌, length,
}
use chief_everything_officer.Base.Sql.{find_row}
use chief_everything_officer.OAuth.Records.{AuthorizationRequest, OAuthDb}
use chief_everything_officer.OAuth.Store.{
  Outcome, get_authorization_request, set_consent_nonce_digest,
}
use chief_everything_officer.OAuth.Scope.{trim, is_empty}

pub data ErrorCode : Type 0 where
  unsupported_response_type invalid_request invalid_client server_error invalid_scope : ErrorCode
  access_denied invalid_grant invalid_target : ErrorCode

-- An OAuthServerError, or an exception of another class that passes through.
pub data ServiceError : Type 0 where
  server : ErrorCode → ℕ → ServiceError
  uncaught : ServiceError

pub data Result {ℓ} (A : Type ℓ) : Type ℓ where
  return : A → Result A
  throw : ServiceError → Result A

infixl 5 ◌>>=◌ ◌>>◌
abbrev pub ◌>>=◌ {ℓ κ} : {A : Type ℓ} {B : Type κ} → Result A → (A → Result B) → Result B
return a >>= f = f a
throw e >>= f = throw e

abbrev pub ◌>>◌ {ℓ} : {B : Type ℓ} → Result (Unit {0}) → Result B → Result B
m >> k = m >>= λ _. k

-- `if (!test) throw`.
abbrev pub require : Bool → ServiceError → Result (Unit {0})
require true e = return tt
require false e = throw e

-- What the service reads of a parsed URL.
pub record Url : Type 0 where
  pub origin : String
  pub pathname : String
  pub search : String
  pub hash : String
  pub username : String
  pub password : String

pub record ClientMetadata : Type 0 where
  pub client_name : String
  pub redirect_uris : List String

pub data Resolution : Type 0 where
  resolved : ClientMetadata → Resolution
  unavailable_client invalid_client_id unexpected : Resolution

pub record Env : Type 0 where
  pub s256 : String → String
  pub sha256_hex : String → String
  pub parse_url : String → Option Url
  pub resolve : String → Resolution

pub record Config : Type 0 where
  pub canonical_resource : String
  pub auth_code_ttl_ms : ℕ
  pub auth_request_ttl_ms : ℕ
  pub access_token_ttl_ms : ℕ
  pub refresh_token_ttl_ms : ℕ

abbrev pub same_place : Url → Url → Bool
same_place a b = a.origin == b.origin && a.pathname == b.pathname

abbrev pub bad_target : ServiceError
bad_target = server invalid_target 400

abbrev pub or_throw {ℓ} : {A : Type ℓ} → Option A → ServiceError → Result A
or_throw none e = throw e
or_throw (some a) e = return a

abbrev pub text_of : Option String → String
text_of none = ""
text_of (some s) = s

-- A parameter that is no text, or only white space, counts as missing.
unfoldable pub validate_canonical_resource : Env → Option String → String → Result String
validate_canonical_resource env uri canonical_resource = do
  require (is_some uri && not (is_empty (trim (text_of uri)))) bad_target
  parsed ← or_throw (env.parse_url (text_of uri)) bad_target
  require (is_empty parsed.search) bad_target
  require (is_empty parsed.hash) bad_target
  require (is_empty parsed.username && is_empty parsed.password) bad_target
  canonical ← or_throw (env.parse_url canonical_resource) uncaught
  require (same_place parsed canonical) bad_target
  return canonical_resource

-- To split on a computed result and keep the equation.
pub Result-cases {ℓ} :
    {A : Type ℓ} (r : Result A) → ((a : A) × (r ≡ return a)) ⊎ ((e : ServiceError) × (r ≡ throw e))
Result-cases (return a) = inl (a, refl)
Result-cases (throw e) = inr (e, refl)
